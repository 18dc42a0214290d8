-- ===== src/SyncGroup/Answer.antt =====
-- When a receive on a group (cyarg/sync_group.c) ends, and with what results.
use yarg_lang.Prelude.{ℕ, zero, suc, ◌+◌, ◌≤◌, ◌≡◌, List, Bool, false, Option, length}
use mathlib.Core.List.{Memᴰ}
use mathlib.Core.List.Memᴰ
use yarg_lang.Channel.{Channel, peek_channel}
use yarg_lang.SyncGroup.{Store}

-- The channels after as many turns of the other routines from the turn `t` on.
abbrev pub after : {A : Type 0} → (ℕ → Store A → Store A) → ℕ → ℕ → Store A → Store A
after turn zero t s = s
after turn (suc n) t s = after turn n (t + 1) (turn t s)

-- The results are one for each channel, and one of them is not nil.
pub record Answered {A : Type 0} (is_nil : A → Bool) (group : List (Option ℕ)) (results : List A)
    : Type 0 where
  pub one_each : length results ≡ length group
  pub value : A
  pub given : Memᴰ value results
  pub is_value : is_nil value ≡ false

module _ {A : Type 0} (word : ℕ) (nil : A) (is_nil : A → Bool) (turn : ℕ → Store A → Store A) where
  -- The oldest value of a channel is there and not nil.
  abbrev pub IsReady : Channel A → Type 0
  IsReady ch = is_nil (peek_channel word nil ch) ≡ false

  -- The others leave a value at the head of a channel that has one.
  abbrev pub IsKept : ℕ → Type 0
  IsKept p = (t : ℕ) (s : Store A) → IsReady (s p) → IsReady (turn t s p)

  -- An element or a pass that gives nothing only lets the others have their turns, one at least
  -- where there is a channel.
  record Idle (IsThere : Type 0) (t : ℕ) (s : Store A) (time : ℕ) (store : Store A) : Type 0 where
    turns : ℕ
    at : time ≡ t + turns
    left : store ≡ after turn turns t s
    one : IsThere → 1 ≤ turns
