-- ===== src/SyncGroup.antt =====
-- A group of channels that are received together (cyarg/sync_group.c). `nil` is NIL_VAL and `is_nil`
-- is IS_NIL. No channel takes the lock of the group for its own, since nothing calls joinSyncGroup: each
-- peek and each collect holds the lock of its channel, and other routines act before either.
pub mod Answer
pub mod Tests
use yarg_lang.Prelude.{
  ℕ, zero, suc, ◌+◌, List, [], ◌∷◌, Bool, true, false, not, ◌||◌, Option, none, some, ◌==◌,
  if◌then◌else◌, length,
}
use yarg_lang.Channel.{Channel, peek_channel, collect_from_channel}

-- The channels by their addresses.
abbrev pub Store : Type 0 → Type 0
Store A = ℕ → Channel A

abbrev pub update : {A : Type 0} → Store A → ℕ → Channel A → Store A
update s p ch q = if q == p then ch else s q

-- What an element of the results leaves: its value, the channels, and the turns that were had.
pub record Taken (A : Type 0) : Type 0 where
  pub value : A
  pub store : Store A
  pub time : ℕ

-- What one pass leaves: the array of the results, the channels, `wait_complete`, and the turns.
pub record Pass (A : Type 0) : Type 0 where
  pub results : List A
  pub store : Store A
  pub complete : Bool
  pub time : ℕ

-- `turn` is what the other routines do to the channels at each of their turns.
module _ {A : Type 0} (word : ℕ) (nil : A) (is_nil : A → Bool) (turn : ℕ → Store A → Store A) where
  -- What is seen may be gone when it is collected.
  abbrev pub collect : ℕ → ℕ → Store A → Taken A
  collect p t s =
      let got = collect_from_channel word nil (s p) in
      record { value = got.0; store = update s p got.1; time = t }

  -- The element for one channel: what it gave, or nil.
  abbrev pub take_from : ℕ → ℕ → Store A → Taken A
  take_from p t s =
      let s' = turn t s in
      let seen = peek_channel word nil (s' p) in
      if is_nil seen
      then record { value = seen; store = s'; time = t + 1 }
      else collect p (t + 2) (turn (t + 1) s')

  abbrev pub element : Option ℕ → ℕ → Store A → Taken A
  element none t s = record { value = nil; store = s; time = t }
  element (some p) t s = take_from p t s

  -- The body of the loop over the channels of the group, where an entry may be nil.
  unfoldable pub pass : List (Option ℕ) → ℕ → Store A → Pass A
  pass [] t s = record { results = []; store = s; complete = false; time = t }
  pass (c ∷ cs) t s =
      let got = element c t s in
      let rest = pass cs got.time got.store in
      record {
        results = got.value ∷ rest.results;
        store = rest.store;
        complete = not (is_nil got.value) || rest.complete;
        time = rest.time;
      }

  unfoldable pub receive_sync_group :
      ℕ → List (Option ℕ) → List A → ℕ → Store A → Option (List A × Store A)
  receive_sync_group fuel [] results t s = some (results, s)
  receive_sync_group zero (c ∷ cs) results t s = none
  receive_sync_group (suc fuel) (c ∷ cs) results t s =
      let done = pass (c ∷ cs) t s in
      let again = receive_sync_group fuel (c ∷ cs) done.results done.time done.store in
      if done.complete then some (done.results, done.store) else again
