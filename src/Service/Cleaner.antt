-- ===== src/Service/Cleaner.antt =====
-- The goroutine `autoCleanupTTL` of kv-distributed/internal/service/kv_service.go and the calls of
-- `Stop`, which meet it on a channel without a buffer.
use fast_kv_a_lightweight_ke.Base.{
  ℕ, suc, ◌≡◌, ◌≢◌, refl, sym, ap, ◌∙◌, List, [], ◌∷◌, ◌⊎◌, inl, inr,
}

-- The loop runs, or has returned after it stopped its ticker.
pub data Cleaner : Type 0 where
  looping returned : Cleaner

-- The ticker fires, to which the loop does nothing; a call of `Stop` is received, and returns.
pub data Meeting : Type 0 where
  tick stop_received : Meeting

pub data CleanerStep : Cleaner → Meeting → Cleaner → Type 0 where
  ticks : CleanerStep looping tick looping
  stops : CleanerStep looping stop_received returned

pub data CleanerRun : Cleaner → List Meeting → Cleaner → Type 0 where
  ended : (c : Cleaner) → CleanerRun c [] c
  goes_on :
      (c mid end : Cleaner) (m : Meeting) (meetings : List Meeting)
      → CleanerStep c m mid
      → CleanerRun mid meetings end
      → CleanerRun c (m ∷ meetings) end

abbrev pub stops_in : List Meeting → ℕ
stops_in [] = 0
stops_in (tick ∷ meetings) = stops_in meetings
stops_in (stop_received ∷ meetings) = suc (stops_in meetings)

from_looping : (c mid : Cleaner) (m : Meeting) → CleanerStep c m mid → c ≡ looping
from_looping _ _ _ ticks = refl
from_looping _ _ _ stops = refl

nothing_after :
    (c end : Cleaner) (meetings : List Meeting)
    → CleanerRun c meetings end
    → c ≡ returned
    → (end ≡ returned) × (stops_in meetings ≡ 0)
nothing_after _ _ _ (ended _) gone = (gone, refl)
nothing_after _ _ _ (goes_on c mid end m meetings step rest) gone =
    absurd (looping-neq-returned (sym (from_looping c mid m step) ∙ gone))
  where
    looping-neq-returned : looping ≢ returned
    looping-neq-returned same = cc

-- However often the ticker fires, at most one call of `Stop` returns, and the goroutine has returned
-- if and only if one has.
pub stop_returns_once :
    (c end : Cleaner) (meetings : List Meeting)
    → CleanerRun c meetings end
    → c ≡ looping
    → ((end ≡ looping) × (stops_in meetings ≡ 0)) ⊎ ((end ≡ returned) × (stops_in meetings ≡ 1))
stop_returns_once _ _ _ (ended _) begun = inl (begun, refl)
stop_returns_once _ _ _ (goes_on _ _ end _ meetings ticks rest) begun =
    stop_returns_once looping end meetings rest refl
stop_returns_once _ _ _ (goes_on _ _ end _ meetings stops rest) begun =
    let after = nothing_after returned end meetings rest refl in inr (after.0, ap suc after.1)
