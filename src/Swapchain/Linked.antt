-- ===== src/Swapchain/Linked.antt =====
-- The sessions and swapchains of the client over any sequence of calls.
use xrtransport.Common.{
  ℕ, ◌≡◌, refl, sym, ap, subst, ◌∙◌, Bool, Bool-cases, Option-cases, ==_iff, true, false, List, [],
  ◌∷◌, some, inl, inr, arith, ◌==◌, if◌then◌else◌,
}
use mathlib.Core.Option.{some-injective}
use xrtransport.Common.Dict.{find, emplace, find-erase, find-assign, find-emplace}
use xrtransport.Swapchain.State.{SwapchainState, SwapchainImage}
use xrtransport.Swapchain.Store.{
  has, insert, remove, Swapchain, Session, Store, store_swapchain_state, store_session_state,
  destroy_swapchain_state, set_swapchains, set_ring, without_swapchain,
}

-- Each swapchain has a session that lists it.
abbrev pub IsLinked : Store → Type 0
IsLinked st =
    (h : ℕ) (c : Swapchain)
    → find h st.swapchains ≡ some c
    → (s : Session) × (find c.parent_handle st.sessions ≡ some s) × (has h s.swapchains ≡ true)

-- A session that is there stays there, with its device, queue and pool.
abbrev pub Keeps : Store → Store → Type 0
Keeps st st' =
    (k : ℕ) (s : Session)
    → find k st.sessions ≡ some s
    → (s' : Session) × (find k st'.sessions ≡ some s')
      × (s'.device ≡ s.device)
      × (s'.queue ≡ s.queue)
      × (s'.command_pool ≡ s.command_pool)

-- What a call does to the store.
pub data Changes : Store → Store → Type 0 where
  stays : {st : Store} → Changes st st
  follows : {a b c : Store} → Changes a b → Changes b c → Changes a c
  lists :
      (parent handle : ℕ) (s : Session) (images : List SwapchainImage) (is_static : Bool)
      (st st' : Store)
      → find parent st.sessions ≡ some s
      → store_swapchain_state handle parent images is_static st ≡ some st'
      → Changes st (set_swapchains parent s (insert handle s.swapchains) st')
  drops :
      (handle : ℕ) (c : Swapchain) (s : Session) (st : Store)
      → find handle st.swapchains ≡ some c
      → find c.parent_handle st.sessions ≡ some s
      → Changes st (without_swapchain handle c.parent_handle s st)
  opens :
      (handle device queue command_pool : ℕ) (st : Store)
      → Changes st (store_session_state handle device queue command_pool st)
  turns :
      (handle : ℕ) (c : Swapchain) (ring : SwapchainState) (st : Store)
      → find handle st.swapchains ≡ some c
      → Changes st (set_ring handle c ring st)

has-insert : (j k : ℕ) (ks : List ℕ) → has j (insert k ks) ≡ (if j == k then true else has j ks)
unfolding has insert
has-insert j k ks = ground arith

has-remove : (j k : ℕ) (ks : List ℕ) → has j (remove k ks) ≡ (if j == k then false else has j ks)
unfolding has remove
has-remove j k [] = ground arith
has-remove j k (i ∷ ks) = ground (arith, has-remove j k ks)

-- The sessions once that of `parent`, `s`, lists the swapchains `ks`.
module _ (parent : ℕ) (s : Session) (ks : List ℕ) (st : Store)
    (f : find parent st.sessions ≡ some s) where
  set_swapchains-Keeps : Keeps st (set_swapchains parent s ks st)
  unfolding set_swapchains
  set_swapchains-Keeps k v e = elim (Bool-cases (k == parent)) [
    | inl y ↦
        let q : s ≡ v =
          some-injective _ _
            (sym f ∙ ap (λ i. find i st.sessions) (sym ((==_iff k parent).0 y)) ∙ e) in
        (
          record s { swapchains = ks },
          rw (find-assign k parent (record s { swapchains = ks }) st.sessions, y) refl,
          ap (λ x. x.device) q,
          ap (λ x. x.queue) q,
          ap (λ x. x.command_pool) q,
        )
    | inr n ↦ (
      v,
      rw (find-assign k parent (record s { swapchains = ks }) st.sessions, n) e,
      refl,
      refl,
      refl,
    )
  ]

  -- A swapchain that its session lists is still listed.
  set_swapchains-listed :
      (k h : ℕ) (v : Session)
      → find k st.sessions ≡ some v
      → has h v.swapchains ≡ true
      → (has h s.swapchains ≡ true → has h ks ≡ true)
      → (v' : Session) × (find k (set_swapchains parent s ks st).sessions ≡ some v')
        × (has h v'.swapchains ≡ true)
  unfolding set_swapchains
  set_swapchains-listed k h v e m i = elim (Bool-cases (k == parent)) [
    | inl y ↦
        let q : s ≡ v =
          some-injective _ _
            (sym f ∙ ap (λ i. find i st.sessions) (sym ((==_iff k parent).0 y)) ∙ e) in
        (
          record s { swapchains = ks },
          rw (find-assign k parent (record s { swapchains = ks }) st.sessions, y) refl,
          i (ap (λ x. has h x.swapchains) q ∙ m),
        )
    | inr n ↦ (v, rw (find-assign k parent (record s { swapchains = ks }) st.sessions, n) e, m)
  ]

store_session_state-Keeps :
    (handle device queue command_pool : ℕ) (st : Store)
    → Keeps st (store_session_state handle device queue command_pool st)
unfolding store_session_state
store_session_state-Keeps handle device queue command_pool st k s e =
    (s, rw (find-emplace k handle _ st.sessions, e) refl, refl, refl, refl)

lists-IsLinked :
    (parent handle : ℕ) (s : Session) (c : Swapchain) (st : Store)
    → find parent st.sessions ≡ some s
    → c.parent_handle ≡ parent
    → IsLinked st
    → IsLinked (
        set_swapchains parent s
          (insert handle s.swapchains)
          (record st { swapchains = emplace handle c st.swapchains }))
unfolding set_swapchains
lists-IsLinked parent handle s c st f p l h c' e =
    let st' = record st { swapchains = emplace handle c st.swapchains } in
    let ks = insert handle s.swapchains in
    let e' = sym (find-emplace h handle c st.swapchains) ∙ e in
    elim (Option-cases (find h st.swapchains)) [
      | inl n ↦ elim (Bool-cases (h == handle)) [
        | inl y ↦
            let q : c ≡ c' = some-injective _ _ (rw (n, y) at e') in
            let k : (c'.parent_handle == parent) ≡ true =
              (==_iff c'.parent_handle parent).1 (ap (λ x. x.parent_handle) (sym q) ∙ p) in
            (
              record s { swapchains = ks },
              rw (find-assign c'.parent_handle parent (record s { swapchains = ks }) st.sessions, k)
                  refl,
              has-insert h handle s.swapchains ∙ rw y refl,
            )
        | inr z ↦ let x = rw (n, z) at e' in cc
      ]
      | inr (v, e'') ↦
          let (s', f', m) = l h c' (e'' ∙ (rw e'' at e')) in
          set_swapchains-listed parent s ks st' f c'.parent_handle h s' f' m
            (λ i. has-insert h handle s.swapchains ∙ ground (arith, i))
    ]

drops-IsLinked :
    (handle : ℕ) (c : Swapchain) (s : Session) (st : Store)
    → find c.parent_handle st.sessions ≡ some s
    → IsLinked st
    → IsLinked (without_swapchain handle c.parent_handle s st)
unfolding without_swapchain
drops-IsLinked handle c s st f l h c' e =
    let e' = sym (find-erase h handle st.swapchains) ∙ e in
    elim (Bool-cases (h == handle)) [
      | inl y ↦ let x = rw y at e' in cc
      | inr n ↦
          let (s', f', m) = l h c' (rw n at e') in
          set_swapchains-listed c.parent_handle s (remove handle s.swapchains) st f c'.parent_handle
            h s' f' m (λ i. has-remove h handle s.swapchains ∙ rw n i)
    ]

turns-IsLinked :
    (handle : ℕ) (c : Swapchain) (ring : SwapchainState) (st : Store)
    → find handle st.swapchains ≡ some c
    → IsLinked st
    → IsLinked (set_ring handle c ring st)
unfolding set_ring
turns-IsLinked handle c ring st f l h c' e =
    let e' = sym (find-assign h handle (record c { ring = ring }) st.swapchains) ∙ e in
    elim (Bool-cases (h == handle)) [
      | inl y ↦
          let q : record c { ring = ring } ≡ c' = some-injective _ _ (rw y at e') in
          let (s, f', m) = l handle c f in
          (
            s,
            ap (λ x. find x.parent_handle st.sessions) (sym q) ∙ f',
            ap (λ x. has x s.swapchains) ((==_iff h handle).0 y) ∙ m,
          )
      | inr n ↦ l h c' (rw n at e')
    ]

opens-IsLinked :
    (handle device queue command_pool : ℕ) (st : Store)
    → IsLinked st
    → IsLinked (store_session_state handle device queue command_pool st)
unfolding store_session_state
opens-IsLinked handle device queue command_pool st l h c e =
    let (s, f, m) = l h c e in
    (s, rw (find-emplace c.parent_handle handle _ st.sessions, f) refl, m)

pub Changes-IsLinked : {a b : Store} → Changes a b → IsLinked a → IsLinked b
unfolding store_swapchain_state
Changes-IsLinked stays l = l
Changes-IsLinked (follows x y) l = Changes-IsLinked y (Changes-IsLinked x l)
Changes-IsLinked (lists parent handle s images is_static st st' f g) l =
    let q = some-injective _ _ (rw (store_swapchain_state, f) at g) in
    subst (λ x. IsLinked (set_swapchains parent s (insert handle s.swapchains) x)) q
      (lists-IsLinked parent handle s _ st f refl l)
Changes-IsLinked (drops handle c s st e f) l = drops-IsLinked handle c s st f l
Changes-IsLinked (opens handle device queue command_pool st) l =
    opens-IsLinked handle device queue command_pool st l
Changes-IsLinked (turns handle c ring st e) l = turns-IsLinked handle c ring st e l

Keeps-trans : (a b c : Store) → Keeps a b → Keeps b c → Keeps a c
Keeps-trans a b c x y k s e =
    let (s', e', d, q, p) = x k s e in
    let (s'', e'', d', q', p') = y k s' e' in (s'', e'', d' ∙ d, q' ∙ q, p' ∙ p)

pub Changes-Keeps : {a b : Store} → Changes a b → Keeps a b
unfolding store_swapchain_state without_swapchain set_ring destroy_swapchain_state
Changes-Keeps stays = λ k s e. (s, e, refl, refl, refl)
Changes-Keeps (follows {a} {b} {c} x y) = Keeps-trans a b c (Changes-Keeps x) (Changes-Keeps y)
Changes-Keeps (lists parent handle s images is_static st st' f g) =
    let q = some-injective _ _ (rw (store_swapchain_state, f) at g) in
    subst (λ x. Keeps st (set_swapchains parent s (insert handle s.swapchains) x)) q
      (set_swapchains-Keeps parent s _ st f)
Changes-Keeps (drops handle c s st e f) = set_swapchains-Keeps c.parent_handle s _ st f
Changes-Keeps (opens handle device queue command_pool st) =
    store_session_state-Keeps handle device queue command_pool st
Changes-Keeps (turns handle c ring st e) = λ k s f. (s, f, refl, refl, refl)
