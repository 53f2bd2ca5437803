-- ===== src/Arp/Wait.antt =====
-- CARPLayer::Wait (ARP/ARPLayer.cpp): the message loop that runs until the time is over.
use arpwith_mfc.Base.{
  ℕ, ◌+◌, ◌-◌, ◌%◌, ◌<◌, ◌≤◌, List, [], ◌∷◌, ◌++◌, Option, none, some, if◌then◌else◌, ltb, ◌≡◌,
  refl, All, Bool-cases, inl, inr, ltb→lt, arith,
}
use arpwith_mfc.State.{Stack}

-- the messages that PeekMessage takes from the queue, one after the other
unfoldable pub dispatch_all : {M : Type 0} → (M → Stack → Stack) → List M → Stack → Stack
dispatch_all dispatch [] s = s
dispatch_all dispatch (m ∷ ms) s = dispatch_all dispatch ms (dispatch m s)

-- CARPLayer::Wait from `dwStart` on. Each turn of the loop has what GetTickCount gives, a number
-- of 32 bits, and the messages that are there. `none` stands for a loop that goes on when the turns
-- are used up.
unfoldable pub wait_loop :
    {M : Type 0} → (M → Stack → Stack) → ℕ → ℕ → List (ℕ × List M) → Stack → Option Stack
unfolding dispatch_all
wait_loop dispatch start limit [] s = none
wait_loop dispatch start limit ((tick, messages) ∷ turns) s =
    if ltb ((tick + 0x100000000 - start) % 0x100000000) limit
    then wait_loop dispatch start limit turns (dispatch_all dispatch messages s)
    else some s

-- the counter of milliseconds, which runs over after 2 ^ 32 of them
abbrev pub tick_at : ℕ → ℕ → ℕ
tick_at start elapsed = (start + elapsed) % 0x100000000

dispatch_all-keeps :
    {M : Type 0} (P : Stack → Type 0) (dispatch : M → Stack → Stack) (ms : List M) (s : Stack)
    → ((m : M) (t : Stack) → P t → P (dispatch m t))
    → P s
    → P (dispatch_all dispatch ms s)
unfolding dispatch_all
dispatch_all-keeps P dispatch [] s k p = p
dispatch_all-keeps P dispatch (m ∷ ms) s k p = dispatch_all-keeps P dispatch ms _ k (k m s p)

tick_at-elapsed :
    (start e : ℕ)
    → start < 0x100000000
    → e < 0x100000000
    → (tick_at start e + 0x100000000 - start) % 0x100000000 ≡ e
tick_at-elapsed start e h k = omega arith

-- the turns of the loop, which begin so many milliseconds after the start
abbrev pub turns_of : {M : Type 0} → ℕ → List (ℕ × List M) → List (ℕ × List M)
turns_of start [] = []
turns_of start ((e, ms) ∷ ts) = (tick_at start e, ms) ∷ turns_of start ts

-- The wait ends at the latest at the first turn that begins `limit` milliseconds after the start,
-- also where the counter runs over in the meantime. What each message keeps holds afterwards. The turns
-- begin within 2 ^ 32 milliseconds.
pub wait_ends :
    {M : Type 0} (P : Stack → Type 0) (dispatch : M → Stack → Stack) (start limit e : ℕ)
    (before : List (ℕ × List M)) (ms : List M) (after : List (ℕ × List M)) (s : Stack)
    → ((m : M) (t : Stack) → P t → P (dispatch m t))
    → start < 0x100000000
    → limit ≤ e
    → All (λ t. t.0 < 0x100000000) (before ++ (e, ms) ∷ [])
    → P s
    → (s' : Stack) × (wait_loop dispatch start limit (turns_of start (before ++ (e, ms) ∷ after)) s
        ≡ some s')
      × P s'
unfolding wait_loop
wait_ends P dispatch start limit e [] ms after s k h l (b, _) p = elim (Bool-cases (ltb e limit)) [
  | inl y ↦ absurd (omega (arith, ltb→lt))
  | inr y ↦ (s, rw (tick_at-elapsed start e h b, y) refl, p)
]
wait_ends P dispatch start limit e ((f, us) ∷ before) ms after s k h l (b, bs) p =
    elim (Bool-cases (ltb f limit)) [
      | inl y ↦
          let (s', ends, q) =
            wait_ends P dispatch start limit e before ms after (dispatch_all dispatch us s) k h l bs
              (dispatch_all-keeps P dispatch us s k p) in
          (s', rw (tick_at-elapsed start f h b, y) ends, q)
      | inr y ↦ (s, rw (tick_at-elapsed start f h b, y) refl, p)
    ]
