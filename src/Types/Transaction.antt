-- ===== src/Types/Transaction.antt =====
-- src/types/transaction.rs: transactions. The time is an argument where the code reads the clock.
use kyvera_core.Prelude.{ℕ, Bool, true, false, ◌&&◌, not, [], Text, is_empty}
use kyvera_core.Prelude.Int.{ℤ}

pub data TransactionType : Type 0 where
  transfer stake_lock stake_unlock contract_deploy contract_call : TransactionType

pub record Transaction : Type 0 where
  pub hash : Text
  pub sender : Text
  pub receiver : Text
  pub amount : ℕ
  pub fee : ℕ
  pub nonce : ℕ
  pub signature : Text
  pub timestamp : ℤ
  pub transaction_type : TransactionType
  pub payload : Text

unfoldable pub new : ℤ → Text → Text → ℕ → ℕ → ℕ → TransactionType → Text → Transaction
new now sender receiver amount fee nonce transaction_type payload = record {
  hash = [];
  sender = sender;
  receiver = receiver;
  amount = amount;
  fee = fee;
  nonce = nonce;
  signature = [];
  timestamp = now;
  transaction_type = transaction_type;
  payload = payload;
}

unfoldable pub is_signed : Transaction → Bool
unfolding is_empty
is_signed tx = not (is_empty tx.hash) && not (is_empty tx.signature)

unfoldable pub is_transfer : Transaction → Bool
is_transfer tx = elim tx.transaction_type [ transfer ↦ true | _ ↦ false ]

unfoldable pub is_contract_deploy : Transaction → Bool
is_contract_deploy tx = elim tx.transaction_type [ contract_deploy ↦ true | _ ↦ false ]
