-- ===== src/Client/Sync.antt =====
-- src/client/synchronization.cpp: the offset of the client's clock from the server's. Times and
-- durations are exact: an overflow of `int64_t` is undefined behaviour in the source.
use xrtransport.Common.{
  ◌+◌, ◌-◌, ◌^◌, ◌≡◌, ◌⊎◌, refl, Bool, true, false, ◌&&◌, List, [], ◌∷◌, arith, if◌then◌else◌,
  Bool-cases, inl, inr, subst, sym, ap, ◌∙◌,
}
use xrtransport.Common.Int.{
  ℤ, one_part, pos, negsuc, pos_part, neg_part, ◌+ℤ◌, ◌-ℤ◌, ◌≤ℤ◌, ltb_ℤ, half, half_parts, +ℤ_parts,
  -ℤ_parts,
}

-- One iteration: sent at `t1` and answered at `t3` by the client's clock, and the server's time.
pub record Sample : Type 0 where
  pub t1 : ℤ
  pub t2 : ℤ
  pub t3 : ℤ

-- `min_t1`, `min_t2`, `min_t3` and `min_rtt`.
pub record Best : Type 0 where
  pub t1 : ℤ
  pub t2 : ℤ
  pub t3 : ℤ
  pub rtt : ℤ

abbrev pub rtt : Sample → ℤ
rtt s = s.t3 -ℤ s.t1

abbrev pub no_best : Best
no_best = record { t1 = pos 0; t2 = pos 0; t3 = pos 0; rtt = pos (2 ^ 63 - 1) }

unfoldable pub update : Best → Sample → Best
update b s =
    if ltb_ℤ (rtt s) b.rtt then record { t1 = s.t1; t2 = s.t2; t3 = s.t3; rtt = rtt s } else b

unfoldable pub measure : Best → List Sample → Best
measure b [] = b
measure b (s ∷ ss) = measure (update b s) ss

-- The offset that the iterations give.
unfoldable pub offset : Best → ℤ
offset b = b.t1 +ℤ half b.rtt -ℤ b.t2

pub record Clocks : Type 0 where
  pub synchronization_enabled : Bool
  pub time_offset : ℤ
  pub last_sync : ℤ

-- `samples` are what the iterations measure, of which the code makes 20, and `ended` is the time behind
-- them.
unfoldable pub do_synchronize : List Sample → ℤ → Clocks → Clocks
do_synchronize samples ended c = record c {
  time_offset = offset (measure no_best samples);
  last_sync = ended;
}

-- What the static variables start as.
unfoldable pub new_clocks : Clocks
new_clocks = record {
  synchronization_enabled = false;
  time_offset = pos 0;
  last_sync = negsuc (2 ^ 63 - 1);
}

-- 200 milliseconds.
abbrev pub sync_interval : ℤ
sync_interval = pos 200000000

-- `now` is the time of the check.
unfoldable pub get_time_offset : Bool → ℤ → List Sample → ℤ → Clocks → ℤ × Clocks
get_time_offset try_synchronize now samples ended c =
    let c' = do_synchronize samples ended c in
    if try_synchronize && c.synchronization_enabled && ltb_ℤ (c.last_sync +ℤ sync_interval) now
    then (c'.time_offset, c')
    else (c.time_offset, c)

unfoldable pub enable_synchronization : Clocks → Clocks
enable_synchronization c = record c { synchronization_enabled = true }

unfoldable pub disable_synchronization : Clocks → Clocks
disable_synchronization c = record c { synchronization_enabled = false }

-- The server took its time while the client waited, and its clock is `off` behind the client's.
pub record IsFair (off : ℤ) (t1 t2 t3 : ℤ) : Type 0 where
  pub sent : t1 ≤ℤ t2 +ℤ off
  pub answered : t2 +ℤ off ≤ℤ t3

abbrev pub AllFair : ℤ → List Sample → Type 0
AllFair off [] = Unit
AllFair off (s ∷ ss) = IsFair off s.t1 s.t2 s.t3 × AllFair off ss

-- No round trip is shorter than `r`.
abbrev pub Shortest : ℤ → List Sample → Type 0
Shortest r [] = Unit
Shortest r (s ∷ ss) = (r ≤ℤ rtt s) × Shortest r ss

record IsMeasured (off : ℤ) (b : Best) : Type 0 where
  fair : IsFair off b.t1 b.t2 b.t3
  measured : b.rtt ≡ b.t3 -ℤ b.t1

update-IsMeasured :
    (off : ℤ) (b : Best) (s : Sample)
    → IsMeasured off b ⊎ (ltb_ℤ (rtt s) b.rtt ≡ true)
    → IsFair off s.t1 s.t2 s.t3
    → IsMeasured off (update b s)
unfolding update
update-IsMeasured off b s m f = elim (Bool-cases (ltb_ℤ (rtt s) b.rtt)) [
  | inl y ↦ rw y (record { fair = f; measured = refl })
  | inr n ↦ rw n (elim m [ inl k ↦ k | inr y ↦ cc ])
]

update_le : (b : Best) (s : Sample) → ((update b s).rtt ≤ℤ b.rtt) × ((update b s).rtt ≤ℤ rtt s)
unfolding update
update_le b s = elim (Bool-cases (ltb_ℤ (rtt s) b.rtt)) [
  | inl y ↦ rw y (ground (arith, y))
  | inr n ↦ rw n (ground (arith, n))
]

measure_le :
    (b : Best) (ss : List Sample) → ((measure b ss).rtt ≤ℤ b.rtt) × Shortest (measure b ss).rtt ss
unfolding measure
measure_le b [] = (omega arith, tt)
measure_le b (s ∷ ss) =
    let (l, r) = measure_le (update b s) ss in
    let (u, v) = update_le b s in (omega (arith, l, u), (omega (arith, l, v), r))

measure-IsMeasured :
    (off : ℤ) (b : Best) (ss : List Sample)
    → IsMeasured off b
    → AllFair off ss
    → IsMeasured off (measure b ss)
unfolding measure
measure-IsMeasured off b [] m f = m
measure-IsMeasured off b (s ∷ ss) m f =
    measure-IsMeasured off (update b s) ss (update-IsMeasured off b s (inl m) f.0) f.1

offset_error :
    (off : ℤ) (b : Best)
    → IsMeasured off b
    → (offset b ≤ℤ off +ℤ half b.rtt) × (off ≤ℤ offset b +ℤ half (b.rtt +ℤ pos 1))
unfolding offset
offset_error off b m =
    let r = b.rtt in
    let q = r +ℤ pos 1 in
    let span = -ℤ_parts b.t3 b.t1 in
    let measured =
      subst
        (λ x.
          pos_part x + neg_part b.t3 + pos_part b.t1 ≡ neg_part x + pos_part b.t3 + neg_part b.t1)
        (sym m.measured) span in
    omega (
      arith,
      m.fair.sent,
      m.fair.answered,
      +ℤ_parts b.t2 off,
      measured,
      one_part r,
      one_part q,
      +ℤ_parts r (pos 1),
      half_parts r,
      half_parts q,
      +ℤ_parts b.t1 (half r),
      -ℤ_parts (b.t1 +ℤ half r) b.t2,
      +ℤ_parts off (half r),
      +ℤ_parts (b.t1 +ℤ half r -ℤ b.t2) (half q),
    )

-- The offset that a synchronization stores is at most half of the shortest round trip away from the
-- true one, half a nanosecond more where the round trip is odd, if the server took its time while
-- the client waited, in every iteration, and the first round trip is below the largest `int64_t`.
pub do_synchronize_error :
    (off ended : ℤ) (s : Sample) (ss : List Sample) (c : Clocks)
    → AllFair off (s ∷ ss)
    → ltb_ℤ (rtt s) (pos (2 ^ 63 - 1)) ≡ true
    → (r : ℤ) × Shortest r (s ∷ ss)
      × ((do_synchronize (s ∷ ss) ended c).time_offset ≤ℤ off +ℤ half r)
      × (off ≤ℤ (do_synchronize (s ∷ ss) ended c).time_offset +ℤ half (r +ℤ pos 1))
unfolding do_synchronize measure
do_synchronize_error off ended s ss c f h =
    let best = measure (update no_best s) ss in
    let m =
      measure-IsMeasured off (update no_best s) ss (update-IsMeasured off no_best s (inr h) f.0)
        f.1 in
    let (lower, upper) = offset_error off best m in
    (best.rtt, (measure_le no_best (s ∷ ss)).1, lower, upper)

not_due :
    (try : Bool) (now ended : ℤ) (ss : List Sample) (c : Clocks)
    → now ≤ℤ c.last_sync +ℤ sync_interval
    → get_time_offset try now ss ended c ≡ (c.time_offset, c)
unfolding get_time_offset
not_due try now ended ss c h = ground (arith, h)

-- Behind a call of `get_time_offset`, a later one within the interval from the last synchronization
-- returns the same offset and changes nothing, whatever an exchange would measure; synchronization
-- that is disabled returns the offset of before.
pub get_time_offset_again :
    (try again : Bool) (now later ended ended' : ℤ) (ss ss' : List Sample) (c : Clocks)
    → later ≤ℤ (get_time_offset try now ss ended c).1.last_sync +ℤ sync_interval
    → let (time, c') = get_time_offset try now ss ended c in
      (get_time_offset again later ss' ended' c' ≡ (time, c'))
      × (get_time_offset try now ss ended (disable_synchronization c)
          ≡ (c.time_offset, disable_synchronization c))
unfolding get_time_offset disable_synchronization
get_time_offset_again try again now later ended ended' ss ss' c h =
    let c' = (get_time_offset try now ss ended c).1 in
    let same : c'.time_offset ≡ (get_time_offset try now ss ended c).0 = ground arith in
    (not_due again later ended' ss' c' h ∙ ap (λ o. (o, c')) same, ground arith)
