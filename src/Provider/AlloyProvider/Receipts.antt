-- ===== src/Provider/AlloyProvider/Receipts.antt =====
-- `wait_for_receipt` comes to an end, and what its answer means.
use mathlib.Core.Path.{subst}
use native.Mathlib.Nat.{mod-lt, div-add-mod}
use ethera_bundler.Base.{
  ℕ, zero, suc, ◌+◌, ◌-◌, ◌*◌, ◌/◌, ◌≤◌, ◌<◌, ◌≡◌, refl, min, Bool-cases, Option-cases, Option,
  none, some, ◌⊎◌, inl, inr, leb, arith,
}
use ethera_bundler.Alloy.{Hash}
use ethera_bundler.Provider.{ProviderError, transport, ReceiptInfo}
use ethera_bundler.Provider.Remote.{
  RpcError, Receipt, get_transaction_receipt, Outside, IsClock, from_millis,
}
use ethera_bundler.Provider.AlloyProvider.{poll, poll_loop, await_receipt, next_backoff}

-- The time that `n` turns sleep at least, from this backoff on.
abbrev pub slept : (n backoff : ℕ) → ℕ
slept zero backoff = 0
slept (suc n) backoff = backoff + slept n (min (backoff * 2) (from_millis 2_000))

slept-ge : (n backoff : ℕ) → from_millis 200 ≤ backoff → n * from_millis 200 ≤ slept n backoff
slept-ge zero backoff h = omega arith
slept-ge (suc n) backoff h =
    let next : ℕ = min (backoff * 2) (from_millis 2_000) in
    omega (arith, h, slept-ge n next (omega (arith, h)))

turns-enough : (timeout : ℕ) → timeout ≤ slept (timeout / from_millis 200 + 1) (from_millis 200)
turns-enough timeout = omega (
  arith,
  div-add-mod timeout (from_millis 200),
  mod-lt timeout {m = from_millis 200} (omega arith),
  slept-ge (timeout / from_millis 200 + 1) (from_millis 200) (omega arith),
)

pub found-cases :
    (x : Option Receipt ⊎ RpcError)
    → ((e : RpcError) × (x ≡ inr e)) ⊎ (((r : Receipt) × (x ≡ inl (some r))) ⊎ (x ≡ inl none))
found-cases (inr e) = inl (e, refl)
found-cases (inl (some r)) = inr (inl (r, refl))
found-cases (inl none) = inr (inr refl)

-- After a sleep either the backoff or the deadline has passed.
woken :
    (deadline backoff now before after : ℕ)
    → before ≤ now
    → now < deadline
    → now + min backoff (deadline - now) ≤ after
    → (before + backoff ≤ after) ⊎ (deadline ≤ after)
woken deadline backoff now before after h lt le = elim (Bool-cases (leb backoff (deadline - now))) [
  | inl short ↦
      inl (let fits : backoff ≤ deadline - now = ground arith in omega (arith, fits, h, le))
  | inr long ↦
      inr (let wide : deadline - now < backoff = ground arith in omega (arith, wide, lt, le))
]

module _ {S : Type 0} (o : Outside S) (time : S → ℕ) (hash : Hash) where
  -- What an answer means at its end `s`. An error or a receipt is the node's last response to a
  -- question for the transaction; otherwise the node's last response was that there is none, and
  -- the deadline has passed.
  abbrev pub Answers : (deadline : ℕ) → Option ReceiptInfo ⊎ ProviderError → S → Type 0
  Answers deadline (inr e) s =
      (t : S) × (x : RpcError) × ((o.send (get_transaction_receipt hash) t).0 ≡ inr x)
      × ((o.send (get_transaction_receipt hash) t).1 ≡ s)
      × (e ≡ transport x.to_string)
  Answers deadline (inl (some info)) s =
      (t : S) × (r : Receipt) × ((o.send (get_transaction_receipt hash) t).0 ≡ inl (some r))
      × ((o.send (get_transaction_receipt hash) t).1 ≡ s)
      × (info ≡ record {
        tx_hash = hash;
        block_number = elim r.block_number [ none ↦ 0 | some n ↦ n ];
        success = r.status;
      })
  Answers deadline (inl none) s =
      (t : S) × ((o.send (get_transaction_receipt hash) t).0 ≡ inl none)
      × ((o.now (o.send (get_transaction_receipt hash) t).1).1 ≡ s)
      × (deadline ≤ time s)

  -- What a turn that begins at `s` leaves.
  abbrev Turned :
      (deadline backoff : ℕ) → S → Option (Option ReceiptInfo ⊎ ProviderError) × S → Type 0
  Turned deadline backoff s (some a, s') = Answers deadline a s'
  Turned deadline backoff s (none, s') =
      (time s < deadline) × ((time s + backoff ≤ time s') ⊎ (deadline ≤ time s'))

  module _ (clock : IsClock o time) where
    poll-Turned :
        (deadline backoff : ℕ) (s : S) → Turned deadline backoff s (poll o hash deadline backoff s)
    unfolding poll
    poll-Turned deadline backoff s =
        let found : Option Receipt ⊎ RpcError = (o.send (get_transaction_receipt hash) s).0 in
        let s1 : S = (o.send (get_transaction_receipt hash) s).1 in
        let s2 : S = (o.now s1).1 in
        let now : ℕ = (o.now s1).0 in
        let before : time s ≤ time s2 =
          omega (arith, clock.send-le (get_transaction_receipt hash) s, clock.now-le s1) in
        let s3 : S = o.sleep (min backoff (deadline - now)) s2 in
        elim (found-cases found) [
          | inl (e, at) ↦ rw (at, poll, Turned) (s, e, at, refl, refl)
          | inr (inl (r, at)) ↦ rw (at, poll, Turned) (s, r, at, refl, refl)
          | inr (inr at) ↦ elim (Bool-cases (leb deadline now)) [
            | inl late ↦ rw (at, late, poll, Turned) (s, at, refl, ground (arith, clock.now-eq s1))
            | inr early ↦
                rw (at, early, poll, Turned)
                  (
                    ground (arith, clock.now-eq s1, before),
                    woken deadline backoff now (time s) (time s3)
                        (omega (arith, before, clock.now-eq s1)) (ground (arith, early))
                        (omega (
                          arith,
                          clock.now-eq s1,
                          clock.sleep-le (min backoff (deadline - now)) s2,
                        )),
                  )
          ]
        ]

    -- The loop ends within its turns, with an answer that keeps the deadline.
    abbrev Ended : (fuel deadline backoff : ℕ) → S → Type 0
    Ended fuel deadline backoff s =
        let (answer, s') = poll_loop o fuel hash deadline backoff s in
        (a : Option ReceiptInfo ⊎ ProviderError) × (answer ≡ some a) × Answers deadline a s'

    turn-Ended :
        (fuel deadline backoff : ℕ) (s : S)
        → (time s < deadline
            → (time s + backoff ≤ time (poll o hash deadline backoff s).1)
              ⊎ (deadline ≤ time (poll o hash deadline backoff s).1)
            → Ended fuel deadline (next_backoff o backoff) (poll o hash deadline backoff s).1)
        → Ended (suc fuel) deadline backoff s
    unfolding poll_loop
    turn-Ended fuel deadline backoff s next =
        let s1 : S = (poll o hash deadline backoff s).1 in
        let turned : Turned deadline backoff s ((poll o hash deadline backoff s).0, s1) =
          poll-Turned deadline backoff s in
        elim (Option-cases (poll o hash deadline backoff s).0) [
          | inl on ↦
              let (early, woke) : Turned deadline backoff s (none, s1) =
                subst (λ x. Turned deadline backoff s (x, s1)) on turned in
              rw (on, poll_loop) (next early woke)
          | inr (a, stop) ↦
              let answers : Answers deadline a s1 =
                subst (λ x. Turned deadline backoff s (x, s1)) stop turned in
              rw (stop, poll_loop) (a, refl, answers)
        ]

    -- One turn more than the sleeps that the rest of the time allows is enough.
    poll_loop-Ended :
        (n deadline backoff : ℕ) (s : S)
        → deadline ≤ time s + slept n backoff
        → Ended (suc n) deadline backoff s
    poll_loop-Ended zero deadline backoff s h =
        turn-Ended 0 deadline backoff s (λ early woke. absurd (omega (arith, h, early)))
    poll_loop-Ended (suc n) deadline backoff s h = turn-Ended (suc n) deadline backoff s (λ early.
        elim [
          | inl woke ↦
              poll_loop-Ended n deadline (next_backoff o backoff) _ (omega (arith, h, woke))
          | inr woke ↦ poll_loop-Ended n deadline (next_backoff o backoff) _ (omega (arith, woke))
        ])

    earlier :
        (before deadline : ℕ) (a : Option ReceiptInfo ⊎ ProviderError) (s : S)
        → before ≤ deadline
        → Answers deadline a s
        → Answers before a s
    earlier before deadline (inr e) s le h = h
    earlier before deadline (inl (some info)) s le h = h
    earlier before deadline (inl none) s le (t, found, at, late) =
        (t, found, at, omega (arith, le, late))

    -- Over a clock that does not go back and sleeps at least as long as asked, `wait_for_receipt`
    -- comes to an end for every timeout, and its answer is the node's last response: the receipt
    -- or the error, or that there is no receipt, and then the timeout has passed since the start.
    pub await_receipt-Answers :
        (timeout : ℕ) (s : S)
        → let (answer, s') = await_receipt o hash timeout s in
          (a : Option ReceiptInfo ⊎ ProviderError) × (answer ≡ some a)
          × Answers (time s + timeout) a s'
    unfolding await_receipt
    await_receipt-Answers timeout s =
        let s1 : S = (o.now s).1 in
        let started : ℕ = (o.now s).0 in
        let (a, e, answers) =
          poll_loop-Ended (timeout / from_millis 200 + 1) (started + timeout) (from_millis 200) s1
            (omega (arith, turns-enough timeout, clock.now-eq s)) in
        (
          a,
          e,
          earlier (time s + timeout) (started + timeout) a _
              (omega (arith, clock.now-le s, clock.now-eq s)) answers,
        )
