-- ===== src/LogLevel/Expiry.antt =====
-- A runtime change of the level is temporary, and no stale timer ends a newer one.
use nodejs_basics.Prelude.{
  ℕ, suc, ◌+◌, ◌<◌, none, some, List, [], ◌∷◌, ◌≡◌, ◌⊎◌, inl, refl, arith, All,
}
use nodejs_basics.Prelude.Int.{pos}
use nodejs_basics.LogLevel.{
  LogLevelName, LogLevel, Event, sets, resets, fires, new, set, revert, step, run,
}

pub fire_all : LogLevel → List ℕ → LogLevel
fire_all s [] = s
fire_all s (g ∷ gs) = fire_all (revert s g) gs

fire_all_stale : (s : LogLevel) (gs : List ℕ) → All (λ g. g < s.generation) gs → fire_all s gs ≡ s
unfolding fire_all revert
fire_all_stale s [] h = refl
fire_all_stale s (g ∷ gs) h = ground (arith, fire_all_stale s gs h.1)

-- Timers of earlier changes, fired in any number, leave a later change alone; its own timer then
-- puts the base level back, clears the expiry and leaves no timer.
pub expires_to_base :
    (s : LogLevel) (level : LogLevelName) (ttl now : ℕ) (stale : List ℕ)
    → All (λ g. g < s.generation + 1) stale
    → let changed = set s level (pos (suc ttl)) now in
      let ended = revert (fire_all changed stale) (s.generation + 1) in
      (fire_all changed stale ≡ changed)
      × (ended.current ≡ s.base)
      × (ended.expires ≡ none)
      × (ended.timer ≡ none)
unfolding set revert
expires_to_base s level ttl now stale h =
    let same = fire_all_stale (set s level (pos (suc ttl)) now) stale h in
    (same, ground (arith, same), ground (arith, same), ground (arith, same))

-- The level is the base level, or an armed timer of the latest change will put it back; an armed
-- timer comes with an expiry that is shown.
pub record IsTemporary (s : LogLevel) : Type 0 where
  pub back : (s.current ≡ s.base) ⊎ (s.timer ≡ some s.generation)
  pub shown : s.expires ≡ none → s.timer ≡ none

-- A change through the admin server has a positive TTL.
abbrev pub HasTtl : Event → Type 0
HasTtl (sets level ttl now) = (n : ℕ) × (ttl ≡ pos (suc n))
HasTtl _ = Unit

step-IsTemporary : (s : LogLevel) (e : Event) → HasTtl e → IsTemporary s → IsTemporary (step s e)
unfolding step
step-IsTemporary s (sets level ttl now) (n, q) h = ground arith
step-IsTemporary s (resets now) t h = ground arith
step-IsTemporary s (fires g) t h = ground arith

run-IsTemporary :
    (s : LogLevel) (es : List Event) → All HasTtl es → IsTemporary s → IsTemporary (run s es)
unfolding run
run-IsTemporary s [] t h = h
run-IsTemporary s (e ∷ es) t h = run-IsTemporary (step s e) es t.1 (step-IsTemporary s e t.0 h)

-- Whatever calls with positive TTLs are made and whatever timers fire, a level other than the
-- configured one has the timer of the latest change armed and shows when it expires.
pub run-new-IsTemporary :
    (base : LogLevelName) (max_ttl_ms : ℕ) (es : List Event)
    → All HasTtl es
    → IsTemporary (run (new base max_ttl_ms) es)
unfolding new
run-new-IsTemporary base max_ttl_ms es t =
    run-IsTemporary (new base max_ttl_ms) es t (record { back = inl refl; shown = λ h. refl })
