-- ===== src/Client/Agreement.antt =====
-- How the handshake of a client and a server ends, by the builds of the two.
use xrtransport.Common.{
  ℕ, zero, suc, ◌≡◌, ◌<◌, ◌^◌, refl, sym, ◌∙◌, Bool, true, false, ◌&&◌, List, [], ◌++◌, ◌==◌,
  if◌then◌else◌, arith, Bool-cases, inl, inr, ==_iff,
}
use xrtransport.Serialization.Stream.{throws, eof}
use xrtransport.Serialization.Bytes.{serialize, deserialize, values, deserialize-serialize}
use xrtransport.Client.Handshake.{
  Side, writes, reads, closes, accepts, Build, client_ends, client_versions, client_magic,
  client_handshake, server_ends, server_versions, server_magic, server_handshake, advance, accepted,
  refused, eof_thrown, end, talk, handshake,
}

-- The constants of a build fit their widths.
pub record Fits (b : Build) : Type 0 where
  pub magic_fits : b.magic < 2 ^ 32
  pub api_fits : b.xr_api_version < 2 ^ 64
  pub protocol_fits : b.protocol_version < 2 ^ 32

read_eof : (w : ℕ) → deserialize (suc w) [] ≡ throws eof
unfolding deserialize
read_eof w = refl

advance-reads :
    (w x : ℕ) (f : ℕ → Side) (rest : List ℕ)
    → x < values w
    → advance (reads w f) (serialize w x ++ rest) ≡ advance (f x) rest
unfolding advance
advance-reads w x f rest h = rw (deserialize-serialize w x h rest, advance) refl

advance_waits : (w : ℕ) (f : ℕ → Side) → advance (reads (suc w) f) [] ≡ (reads (suc w) f, [], [])
unfolding advance
advance_waits w f = rw (read_eof w, advance) refl

advance-writes :
    (bs : List ℕ) (s : Side) (input : List ℕ) {s' : Side} {left output : List ℕ}
    → advance s input ≡ (s', left, output)
    → advance (writes bs s) input ≡ (s', left, bs ++ output)
unfolding advance
advance-writes bs s input h = rw h refl

-- One turn of each side.
turn :
    (n : ℕ) (c s : Side) (a b : List ℕ) {c' s' : Side} {left left' output output' : List ℕ}
    → advance c a ≡ (c', left, output)
    → advance s (b ++ output) ≡ (s', left', output')
    → talk (suc n) c s a b ≡ talk n c' s' (left ++ output') left'
unfolding talk
turn n c s a b h k = rw (h, k) refl

-- The client waits for a server that closed the stream.
idle : (n w : ℕ) (f : ℕ → Side) → talk n (reads (suc w) f) closes [] [] ≡ (eof_thrown, refused)
unfolding talk advance end
idle zero w f = refl
idle (suc n) w f = turn n (reads (suc w) f) closes [] [] (advance_waits w f) refl ∙ idle n w f

client_start :
    (c : Build)
    → advance (client_handshake c) [] ≡ (reads 4 (client_magic c), [], serialize 4 c.magic ++ [])
unfolding client_handshake
client_start c = advance-writes (serialize 4 c.magic) _ [] (advance_waits 3 (client_magic c))

module _ (c s : Build) (f : Fits c) (g : Fits s) where
  first_turn :
      {t : Side} {output : List ℕ}
      → advance (server_magic s c.magic) [] ≡ (t, [], output)
      → handshake c s ≡ talk 3 (reads 4 (client_magic c)) t output []
  unfolding handshake server_handshake
  first_turn h =
      turn 3 (client_handshake c) (server_handshake s) [] [] (client_start c)
        (advance-reads 4 c.magic (server_magic s) [] f.magic_fits ∙ h)

  other_magic : (s.magic == c.magic) ≡ false → handshake c s ≡ (eof_thrown, refused)
  other_magic n = first_turn closed ∙ idle 3 3 (client_magic c)
    where
      closed : advance (server_magic s c.magic) [] ≡ (closes, [], [])
      closed = unfold server_magic advance in rw n refl

  abbrev versions : Build → List ℕ
  versions b = serialize 8 b.xr_api_version ++ (serialize 4 b.protocol_version ++ [])

  -- With the same magic, three turns are left in which the versions and the answers cross.
  same_magic :
      c.magic ≡ s.magic
      → handshake c s
        ≡ talk 2
            (reads 8 (λ a. reads 4 (client_versions c a)))
            (reads 4 (server_ends s c.xr_api_version c.protocol_version))
            (versions s)
            []
  same_magic e =
      first_turn opens
      ∙ turn 2 (reads 4 (client_magic c)) (reads 8 (λ a. reads 4 (server_versions s a))) _ []
          answers
          (advance-reads 8 c.xr_api_version _ _ f.api_fits
            ∙ advance-reads 4 c.protocol_version _ [] f.protocol_fits
            ∙ served)
    where
      opens :
          advance (server_magic s c.magic) []
          ≡ (reads 8 (λ a. reads 4 (server_versions s a)), [], serialize 4 s.magic ++ [])
      opens =
          unfold server_magic in
          rw test (advance-writes (serialize 4 s.magic) _ [] (advance_waits 7 _))
        where
          test : (s.magic == c.magic) ≡ true
          test = ground (arith, e)

      answers :
          advance (reads 4 (client_magic c)) (serialize 4 s.magic ++ [])
          ≡ (reads 8 (λ a. reads 4 (client_versions c a)), [], versions c)
      answers = advance-reads 4 s.magic (client_magic c) [] g.magic_fits ∙ sent
        where
          test : (c.magic == s.magic) ≡ true
          test = ground (arith, e)

          sent :
              advance (client_magic c s.magic) []
              ≡ (reads 8 (λ a. reads 4 (client_versions c a)), [], versions c)
          sent =
              unfold client_magic in
              rw test (
                advance-writes (serialize 8 c.xr_api_version) _ []
                  (advance-writes (serialize 4 c.protocol_version) _ [] (advance_waits 7 _)))

      served :
          advance (server_versions s c.xr_api_version c.protocol_version) []
          ≡ (reads 4 (server_ends s c.xr_api_version c.protocol_version), [], versions s)
      served =
          unfold server_versions in
          advance-writes (serialize 8 s.xr_api_version) _ []
            (advance-writes (serialize 4 s.protocol_version) _ [] (advance_waits 3 _))

  -- The client's turn when it has the server's versions.
  third_turn :
      {t u : Side} {sent answer : List ℕ}
      → c.magic ≡ s.magic
      → advance (client_versions c s.xr_api_version s.protocol_version) [] ≡ (t, [], sent)
      → advance (reads 4 (server_ends s c.xr_api_version c.protocol_version)) sent ≡ (u, [], answer)
      → handshake c s ≡ talk 1 t u answer []
  third_turn e h k =
      same_magic e
      ∙ turn 1 (reads 8 (λ a. reads 4 (client_versions c a)))
          (reads 4 (server_ends s c.xr_api_version c.protocol_version)) (versions s) []
          (advance-reads 8 s.xr_api_version _ _ g.api_fits
            ∙ advance-reads 4 s.protocol_version _ [] g.protocol_fits
            ∙ h)
          k

  abbrev same_versions : Bool
  same_versions =
      (c.xr_api_version == s.xr_api_version) && (c.protocol_version == s.protocol_version)

  other_versions : c.magic ≡ s.magic → same_versions ≡ false → handshake c s ≡ (refused, refused)
  other_versions e n = third_turn e refuses stops ∙ over
    where
      refuses :
          advance (client_versions c s.xr_api_version s.protocol_version) []
          ≡ (closes, [], serialize 4 0 ++ [])
      refuses = unfold client_versions advance in rw n refl

      stops :
          advance
            (reads 4 (server_ends s c.xr_api_version c.protocol_version))
            (serialize 4 0 ++ [])
          ≡ (closes, [], [])
      stops =
          advance-reads 4 0 (server_ends s c.xr_api_version c.protocol_version) [] (omega arith)
          ∙ unfold server_ends advance in refl

      over : talk 1 closes closes [] [] ≡ (refused, refused)
      over = unfold talk advance end in refl

  matching : c.magic ≡ s.magic → same_versions ≡ true → handshake c s ≡ (accepted, accepted)
  matching e y = third_turn e agrees ends ∙ over
    where
      agrees :
          advance (client_versions c s.xr_api_version s.protocol_version) []
          ≡ (reads 4 client_ends, [], serialize 4 1 ++ [])
      agrees =
          unfold client_versions in
          rw y (advance-writes (serialize 4 1) _ [] (advance_waits 3 client_ends))

      ends :
          advance
            (reads 4 (server_ends s c.xr_api_version c.protocol_version))
            (serialize 4 1 ++ [])
          ≡ (accepts, [], serialize 4 1 ++ [])
      ends =
          advance-reads 4 1 (server_ends s c.xr_api_version c.protocol_version) [] (omega arith)
          ∙ unfold server_ends advance in rw y refl

      agreed : advance (client_ends 1) [] ≡ (accepts, [], [])
      agreed = unfold client_ends advance in refl

      done : advance accepts [] ≡ (accepts, [], [])
      done = unfold advance in refl

      both : talk 0 accepts accepts [] [] ≡ (accepted, accepted)
      both = unfold talk end in refl

      over : talk 1 (reads 4 client_ends) accepts (serialize 4 1 ++ []) [] ≡ (accepted, accepted)
      over =
          turn 0 (reads 4 client_ends) accepts (serialize 4 1 ++ []) []
            (advance-reads 4 1 client_ends [] (omega arith) ∙ agreed) done
          ∙ both

  -- Both sides end the handshake the same way: with true if their constants are the same, and with
  -- false if a version differs. If the magic differs, the server returns false, and the client's
  -- read throws.
  pub handshake_agreement : handshake c s ≡ (
      if s.magic == c.magic
      then (if (c.xr_api_version == s.xr_api_version) && (c.protocol_version == s.protocol_version)
          then (accepted, accepted)
          else (refused, refused))
      else (eof_thrown, refused))
  handshake_agreement = elim (Bool-cases (s.magic == c.magic)) [
    | inr n ↦ rw n (other_magic n)
    | inl y ↦ rw y (elim (Bool-cases same_versions) [
      | inl v ↦ rw v (matching (sym ((==_iff s.magic c.magic).0 y)) v)
      | inr v ↦ rw v (other_versions (sym ((==_iff s.magic c.magic).0 y)) v)
    ])
  ]
