-- ===== src/Channel/Fifo.antt =====
-- A bounded first-in first-out queue, and a channel (cyarg/channel.c) used as one, in the
-- build of CYARG_PICO_BUSY_SYNC.
use yarg_lang.Prelude.{
  ℕ, ◌≡◌, Bool, true, false, List, [], ◌∷◌, ◌++◌, refl, arith, length, ◌==◌, if◌then◌else◌, ap, ◌∙◌,
  ap₂, Bool-cases, inl, inr, not,
}
use yarg_lang.Channel.{
  Channel, send_channel, collect_from_channel, share_channel, peek_channel, has_space, has_data,
  contents,
}
use yarg_lang.Channel.Valid.{IsValid, send_channel-IsValid, collect-IsValid, share_channel-IsValid}
use yarg_lang.Channel.Queue.{
  head_or, tail, length-contents, send_channel-contents, collect-contents, peek_channel-head,
  share_channel-space, share_channel-full,
}

pub data Op (A : Type 0) : Type 0 where
  send share : A → Op A
  receive peek : Op A

-- What the caller gets; `waits` where the call spins until another thread has made room or data.
pub data Reply (A : Type 0) : Type 0 where
  done waits : Reply A
  got : A → Reply A
  overflowed : Bool → Reply A

module _ {A : Type 0} (nil : A) (cap : ℕ) where
  pub queue_step : Op A → List A → Reply A × List A
  queue_step (send x) q = if length q == cap then (waits, q) else (done, q ++ x ∷ [])
  queue_step (share x) q =
      if length q == cap
      then (overflowed true, tail q ++ x ∷ [])
      else (overflowed false, q ++ x ∷ [])
  queue_step receive [] = (waits, [])
  queue_step receive (x ∷ q) = (got x, q)
  queue_step peek q = (got (head_or nil q), q)

  pub queue_run : List (Op A) → List A → List (Reply A)
  queue_run [] q = []
  queue_run (o ∷ os) q = let (r, q') = queue_step o q in r ∷ queue_run os q'

module _ {A : Type 0} (word : ℕ) (nil : A) where
  -- The calls in the build of CYARG_PICO_BUSY_SYNC, where the wait at the start of a send or a receive
  -- ends at once or not at all. The pthreads build has no wait before a send, and waits for a
  -- semaphore before a receive.
  unfoldable pub pico_step : Op A → Channel A → Reply A × Channel A
  pico_step (send x) ch =
      if has_space word nil ch then (done, send_channel word nil x ch) else (waits, ch)
  pico_step (share x) ch = let (o, ch') = share_channel word nil x ch in (overflowed o, ch')
  pico_step receive ch =
      let (x, ch') = collect_from_channel word nil ch in
      if has_data word nil ch then (got x, ch') else (waits, ch)
  pico_step peek ch = (got (peek_channel word nil ch), ch)

  unfoldable pub pico_run : List (Op A) → Channel A → List (Reply A)
  pico_run [] ch = []
  pico_run (o ∷ os) ch = let (r, ch') = pico_step o ch in r ∷ pico_run os ch'

  full_iff :
      (ch : Channel A)
      → IsValid word ch
      → (length (contents word nil ch) == ch.buffer_size) ≡ not (has_space word nil ch)
  unfolding has_space
  full_iff ch v = rw (length-contents word nil ch v) (ground arith)

  empty_queue :
      (ch : Channel A) → IsValid word ch → has_data word nil ch ≡ false → contents word nil ch ≡ []
  unfolding has_data
  empty_queue ch v h = ground (arith, length-contents word nil ch v, h)

  same_size :
      (x : A) (ch : Channel A)
      → ((send_channel word nil x ch).buffer_size ≡ ch.buffer_size)
        × ((collect_from_channel word nil ch).1.buffer_size ≡ ch.buffer_size)
        × ((share_channel word nil x ch).1.buffer_size ≡ ch.buffer_size)
  unfolding send_channel collect_from_channel share_channel
  same_size x ch = (refl, refl, refl)

  -- One call keeps the invariant and the size, and does what the queue does.
  step_lem :
      (o : Op A) (ch : Channel A)
      → IsValid word ch
      → let (r, ch') = pico_step o ch in
        IsValid word ch'
        × (ch'.buffer_size ≡ ch.buffer_size)
        × ((r, contents word nil ch') ≡ queue_step nil ch.buffer_size o (contents word nil ch))
  unfolding pico_step queue_step
  step_lem (send x) ch v = elim (Bool-cases (has_space word nil ch)) [
    | inl e ↦
        rw (full_iff ch v, e)
          (
            send_channel-IsValid word nil x ch v e,
            (same_size x ch).0,
            ap (λ q. (done, q)) (send_channel-contents word nil ch v x e),
          )
    | inr e ↦ rw (full_iff ch v, e) (v, refl, refl)
  ]
  step_lem (share x) ch v = (
    share_channel-IsValid word nil x ch v,
    (same_size x ch).2,
    elim (Bool-cases (has_space word nil ch)) [
      | inl e ↦
          let (flag, q) = share_channel-space word nil ch v x e in
          rw (full_iff ch v, e) (ap₂ (λ o c. (overflowed o, c)) flag q)
      | inr e ↦
          let (flag, q) = share_channel-full word nil ch v x e in
          rw (full_iff ch v, e) (ap₂ (λ o c. (overflowed o, c)) flag q)
    ],
  )
  step_lem receive ch v = elim (Bool-cases (has_data word nil ch)) [
    | inl e ↦
        rw (e, collect-contents word nil ch v e)
          (collect-IsValid word nil ch v e, (same_size nil ch).1, refl)
    | inr e ↦ rw (e, empty_queue ch v e) (v, refl, refl)
  ]
  step_lem peek ch v =
      (v, refl, ap (λ x. (got x, contents word nil ch)) (peek_channel-head word nil ch v))

  -- In the build of CYARG_PICO_BUSY_SYNC, where a send waits for space and a receive for data: on a
  -- valid channel, any sequence of sends, shares, receives and peeks, one after the other, gives the
  -- replies that a first-in first-out queue bounded by the size of the channel gives from the
  -- contents of the channel, a call that waits among them.
  pub pico_run-queue_run :
      (os : List (Op A)) (ch : Channel A)
      → IsValid word ch
      → pico_run os ch ≡ queue_run nil ch.buffer_size os (contents word nil ch)
  unfolding pico_run queue_run
  pico_run-queue_run [] ch v = refl
  pico_run-queue_run (o ∷ os) ch v =
      let (v', size, step) = step_lem o ch v in
      ap₂ (λ r rs. r ∷ rs) (ap (λ p. p.0) step)
        (pico_run-queue_run os _ v' ∙ ap₂ (λ n q. queue_run nil n os q) size (ap (λ p. p.1) step))
