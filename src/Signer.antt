-- ===== src/Signer.antt =====
-- crates/bundler/src/signer.rs: the trait `Signer`, which signs the outer transaction, and
-- `LocalSigner`, which signs with a private key.
use ethera_bundler.Base.{ℕ, String, ◌⊎◌, inl, inr, Result, ok, err}
use ethera_bundler.Base.Bytes.{Bytes}
use ethera_bundler.Alloy.{Address, Hash}

-- `SignerError`
pub data SignerError : Type 0 where
  invalid_key : String → SignerError
  signing : String → SignerError

-- The fields of `TxEip1559` that the bundler sets; its access list is always empty.
pub record TxEip1559 : Type 0 where
  pub chain_id : ℕ
  pub nonce : ℕ
  pub gas_limit : ℕ
  pub max_fee_per_gas : ℕ
  pub max_priority_fee_per_gas : ℕ
  pub to : Address
  pub value : ℕ
  pub input : Bytes

-- A signed `TxEnvelope`, by the two methods that the bundler calls.
pub record TxEnvelope : Type 0 where
  pub encoded_2718 : Bytes
  pub tx_hash : Hash

-- `PrivateKeySigner` and the consensus types of `alloy`: a key from its bytes, its address, its
-- signature of a transaction, and the transaction with its signature.
pub record PrivateKeys : Type 1 where
  pub Key : Type 0
  pub Signature : Type 0
  pub from_bytes : Hash → Key ⊎ String
  pub key_address : Key → Address
  pub sign_transaction_sync : Key → TxEip1559 → Signature ⊎ String
  pub into_signed : TxEip1559 → Signature → TxEnvelope

module _ (keys : PrivateKeys) where
  -- `LocalSigner`
  pub record LocalSigner : Type 0 where
    pub inner : keys.Key

  unfoldable pub from_key : Hash → Result SignerError LocalSigner
  from_key key = elim (keys.from_bytes key) [
    | inl inner ↦ ok (record { inner = inner })
    | inr e ↦ err (invalid_key e)
  ]

  abbrev pub address : LocalSigner → Address
  address signer = keys.key_address signer.inner

  unfoldable pub local_sign_eip1559 : LocalSigner → TxEip1559 → TxEnvelope ⊎ SignerError
  local_sign_eip1559 signer tx = elim (keys.sign_transaction_sync signer.inner tx) [
    | inl signature ↦ inl (keys.into_signed tx signature)
    | inr e ↦ inr (signing e)
  ]
