-- ===== src/Bundler/Concurrent/Effects.antt =====
-- What one answer does to what a request knows of the accepted nonces.
use mathlib.Core.Option.{none-ne-some}
use ethera_bundler.Base.{
  ◌≤◌, ℕ, ◌+◌, ◌<◌, ◌≡◌, refl, sym, ap, ◌∙◌, Bool, true, false, List, [], ◌∷◌, All, Option, none,
  some, ◌⊎◌, inl, inr, arith,
}
use ethera_bundler.Base.Bytes.{Bytes}
use ethera_bundler.Provider.{
  chain_id, balance, get_code, base_fee, max_priority_fee, pending_nonce, balance_of, user_op_hash,
  estimate_handle_ops_gas, send_raw_transaction, wait_for_receipt, try_call_for_revert,
  simulate_validation,
}
use ethera_bundler.Signer.{TxEip1559, TxEnvelope}
use ethera_bundler.Program.{Call, Answer, query, unix_now, sign_eip1559, lock, unlock, warn}
use ethera_bundler.Bundler.Pipeline.{Bundler}
use ethera_bundler.Bundler.Pipeline.Stage.{Stage, discipline}
use ethera_bundler.Bundler.Pipeline.Requests.{held_count}
use ethera_bundler.Bundler.Concurrent.{Shared, Effect}

-- The nonces fall along the list: the latest is the largest, and no two are equal.
abbrev pub IsDescending : List ℕ → Type 0
IsDescending [] = Unit
IsDescending (n ∷ ns) = All (λ m. m < n) ns × IsDescending ns

pub held_count-le : (held : Bool) → held_count held ≤ 1
held_count-le true = omega arith
held_count-le false = omega arith

module _ (nonce_of : Bytes → ℕ) where
  -- The nonce of a task: a signed transaction has the nonce that was read, and while the lock is
  -- held and nothing is sent, the nonce is above those of all accepted transactions.
  pub record Fact (accepted : List ℕ) (held : Bool) (nonce : Option ℕ)
      (signed : Option (TxEip1559 × TxEnvelope)) (sent : Option Bytes) : Type 0 where
    pub signs :
        (tx : TxEip1559) (envelope : TxEnvelope)
        → signed ≡ some (tx, envelope)
        → (nonce ≡ some tx.nonce) × (nonce_of envelope.encoded_2718 ≡ tx.nonce)
    pub ahead : (n : ℕ) → held ≡ true → sent ≡ none → nonce ≡ some n → All (λ m. m < n) accepted

  abbrev pub FactAt : List ℕ → Stage → Type 0
  FactAt accepted s = Fact accepted s.held s.nonce s.signed s.sent

  -- What one allowed call of a task brings: the shared state `v` after `s`, with `others` other
  -- tasks that hold the lock. If a nonce is accepted, there are none.
  abbrev pub After : (s v : Shared) (t : Stage) (others : ℕ) → Type 0
  After s v t others =
      FactAt v.accepted t
      × IsDescending v.accepted
      × (others + held_count t.held ≡ held_count v.locked)
      × ((v.accepted ≡ s.accepted) ⊎ (others ≡ 0))

  module _ (b : Bundler) (submit : Bool) (s v : Shared) (g : Stage) (others : ℕ)
      (fact : FactAt s.accepted g) (down : IsDescending s.accepted)
      (count : others + held_count g.held ≡ held_count s.locked) where
    plain : v ≡ s → After s v g others
    plain e = rw e (fact, down, count, inl refl)

    accepts :
        (raw : Bytes)
        → (discipline b submit).allowed g (query (send_raw_transaction raw))
        → v ≡ record s { accepted = nonce_of raw ∷ s.accepted }
        → After s v (record g { sent = some raw }) others
    accepts raw a e =
        let (read, encodes) = fact.signs a.tx a.envelope a.signed in
        let above : All (λ m. m < a.tx.nonce) s.accepted =
          fact.ahead a.tx.nonce a.held a.first read in
        let number : nonce_of raw ≡ a.tx.nonce = ap nonce_of (sym a.bytes) ∙ encodes in
        rw e (
          record { signs = fact.signs; ahead = λ n h c. cc },
          (rw number above, down),
          count,
          inr (omega (arith, count, ap held_count a.held, held_count-le s.locked)),
        )

    rejects : (raw : Bytes) → v ≡ s → After s v (record g { sent = some raw }) others
    rejects raw e = rw e (record { signs = fact.signs; ahead = λ n h c. cc }, down, count, inl refl)

    pub after-After :
        (c : Call) (r : Answer c)
        → (discipline b submit).allowed g c
        → Effect nonce_of s c r v
        → After s v ((discipline b submit).after g c r) others
    after-After (query chain_id) r a e = plain e
    after-After (query base_fee) (inl n) a e = plain e
    after-After (query base_fee) (inr x) a e = plain e
    after-After (query max_priority_fee) (inl n) a e = plain e
    after-After (query max_priority_fee) (inr x) a e = plain e
    after-After (query (estimate_handle_ops_gas _ _ _)) (inl n) a e = plain e
    after-After (query (estimate_handle_ops_gas _ _ _)) (inr x) a e = plain e
    after-After (query (balance _)) r a e = plain e
    after-After (query (get_code _)) r a e = plain e
    after-After (query (balance_of _ _)) r a e = plain e
    after-After (query (user_op_hash _ _)) r a e = plain e
    after-After (query (wait_for_receipt _ _)) (inl none) a e = plain e
    after-After (query (wait_for_receipt _ _)) (inl (some info)) a e = plain e
    after-After (query (wait_for_receipt _ _)) (inr x) a e = plain e
    after-After (query (try_call_for_revert _ _ _)) r a e = plain e
    after-After (query (simulate_validation _ _ _)) r a e = plain e
    after-After (query (pending_nonce _)) (inr x) a e = plain e
    after-After (sign_eip1559 tx) (inr x) a e = plain e
    after-After unix_now r a e = plain e
    after-After (warn _) r a e = elim a [ ]
    after-After (query (pending_nonce _)) (inl n) (h, from, fresh) (above, e) = rw e (
      record {
        signs = λ tx envelope q.
            absurd (none-ne-some tx.nonce (sym fresh ∙ (fact.signs tx envelope q).0));
        ahead = λ m h u q. let same : n ≡ m = cc in rw (← same) above;
      },
      down,
      count,
      inl refl,
    )
    after-After (sign_eip1559 tx) (inl envelope) (h, outer) (encodes, e) = rw e (
      record {
        signs = λ tx' envelope' q.
            let same : tx ≡ tx' = cc in
            let encoded : envelope ≡ envelope' = cc in
            (
              outer.nonce ∙ ap (λ (x : TxEip1559). some x.nonce) same,
              ap (λ (x : TxEnvelope). nonce_of x.encoded_2718) (sym encoded)
                  ∙ encodes
                  ∙ ap (λ (x : TxEip1559). x.nonce) same,
            );
        ahead = fact.ahead;
      },
      down,
      count,
      inl refl,
    )
    after-After (query (send_raw_transaction raw)) (inl hash) a e = accepts raw a e
    after-After (query (send_raw_transaction raw)) (inr x) a (inl e) = rejects raw e
    after-After (query (send_raw_transaction raw)) (inr x) a (inr e) = accepts raw a e
    after-After lock r (m, h, u, fresh) (free, e) = rw e (
      record { signs = fact.signs; ahead = λ n h u q. absurd (none-ne-some n (sym fresh ∙ q)) },
      down,
      omega (arith, count, ap held_count h, ap held_count free),
      inl refl,
    )
    after-After unlock r a e = rw e (
      record { signs = fact.signs; ahead = λ n h. cc },
      down,
      omega (arith, count, ap held_count a, held_count-le s.locked),
      inl refl,
    )
