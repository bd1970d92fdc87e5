-- ===== src/Wallet/Seed.antt =====
-- src/wallet/seed.rs: seed phrases. The crate `bip39` is the parameter `Bip39`; the randomness of a
-- phrase is an argument. Phrases are ASCII.
use kyvera_core.Prelude.{
  ℕ, ◌+◌, Bool, true, false, ◌||◌, Option, none, some, List, [], ◌∷◌, ◌++◌, Text, Result, ok, err,
  codes, decimal, is_empty, ◌==◌, leb, ◌&&◌, if◌then◌else◌,
}
use kyvera_core.Chain.Hash.{Hasher}

-- `Mnemonic` for the English word list.
pub record Bip39 : Type 1 where
  pub Mnemonic : Type 0
  pub from_entropy : Text → Mnemonic
  pub to_string : Mnemonic → Text
  pub parse : Text → Option Mnemonic
  pub to_seed : Mnemonic → Text → Text

pub data SeedError : Type 0 where
  invalid_seed_phrase : SeedError

abbrev pub seed_word_count : ℕ
seed_word_count = 24

-- `char::is_whitespace` on ASCII: tab to carriage return, and the space.
unfoldable pub is_whitespace : ℕ → Bool
is_whitespace c = (leb 9 c && leb c 13) || c == 32

-- `split_whitespace`, with the word that is being read.
unfoldable pub words_from : Text → Text → List Text
unfolding is_whitespace
words_from word [] = if is_empty word then [] else word ∷ []
words_from word (c ∷ s) =
    let fresh = words_from [] s in
    let longer = words_from (word ++ (c ∷ [])) s in
    if is_whitespace c then (if is_empty word then fresh else word ∷ fresh) else longer

-- `enumerate().map(..).collect::<Vec<String>>().join("  ")`.
unfoldable pub numbered : ℕ → List Text → Text
numbered i [] = []
numbered i (word ∷ []) = decimal (i + 1) ++ (codes ". " ++ word)
numbered i (word ∷ (next ∷ rest)) =
    (decimal (i + 1) ++ (codes ". " ++ word)) ++ (codes "  " ++ numbered (i + 1) (next ∷ rest))

unfoldable pub format_seed_phrase_for_display : Text → Text
unfolding words_from numbered
format_seed_phrase_for_display phrase = numbered 0 (words_from [] phrase)

unfoldable pub derive_key_seed : ⦃h : Hasher⦄ → Text → Text → Text
derive_key_seed ⦃h⦄ master_seed domain = h.digest (master_seed ++ domain)

module _ ⦃bip39 : Bip39⦄ where
  unfoldable pub generate_seed_phrase : Text → Text
  generate_seed_phrase entropy = bip39.to_string (bip39.from_entropy entropy)

  unfoldable pub seed_from_phrase : Text → Text → Result SeedError Text
  seed_from_phrase phrase passphrase = elim (bip39.parse phrase) [
    | none ↦ err invalid_seed_phrase
    | some mnemonic ↦ ok (bip39.to_seed mnemonic passphrase)
  ]

  unfoldable pub validate_seed_phrase : Text → Bool
  validate_seed_phrase phrase = elim (bip39.parse phrase) [ none ↦ false | some mnemonic ↦ true ]
