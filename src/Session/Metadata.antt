-- ===== src/Session/Metadata.antt =====
-- firmware/manufacturing_test/application/session_metadata.c: the texts that identify the device.
use flight_computer_test.Base.{
  Option, false, ℕ, zero, suc, ◌+◌, ◌-◌, ◌*◌, ◌/◌, ◌%◌, ◌^◌, ◌≤◌, ◌<◌, ◌≡◌, ◌∙◌, ap, sym, subst,
  refl, ℕ_discrete, true, not, ◌&&◌, ◌==◌, none, some, [], ◌∷◌, ◌++◌, Bytes, Bool, leb, length,
  take, drop, get_elem?, memchr, arith, if◌then◌else◌,
}
use flight_computer_test.Base.Text.{codes}
use flight_computer_test.Response.{SessionMetadata}
use flight_computer_test.Response.Clean.{Prints, ◌⊕◌, Prints-le, literal}

abbrev pub hexadecimal : Bytes
hexadecimal = codes "0123456789ABCDEF"

-- hexadecimal[digit]
abbrev pub hexadecimal_at : ℕ → ℕ
hexadecimal_at digit = elim (get_elem? hexadecimal digit) [ none ↦ 0 | some byte ↦ byte ]

-- The last digits of a word, as the loop of append_word_as_hex writes them: with `n` digits behind one,
-- the shift is 4 * n.
unfoldable pub word_as_hex : ℕ → ℕ → Bytes
word_as_hex zero word = []
word_as_hex (suc n) word = hexadecimal_at (word / 2 ^ (4 * n) % 16) ∷ word_as_hex n word

-- The texts that the build puts in.
pub record BuildTexts : Type 0 where
  pub mcu_model : Bytes
  pub board_id : Bytes
  pub board_name : Bytes
  pub board_revision : Bytes
  pub firmware_version : Bytes
  pub firmware_git_revision : Bytes

-- session_metadata_read, from the three words of the unique id and the registry's capabilities.
unfoldable pub session_metadata_read : ℕ → ℕ → ℕ → BuildTexts → (ℕ → Bytes) → ℕ → SessionMetadata
unfolding word_as_hex
session_metadata_read word0 word1 word2 texts capability_at capability_count = record {
  uid = word_as_hex 8 word0 ++ (word_as_hex 8 word1 ++ word_as_hex 8 word2);
  mcu_model = texts.mcu_model;
  board_id = texts.board_id;
  board_name = texts.board_name;
  board_revision = texts.board_revision;
  firmware_version = texts.firmware_version;
  firmware_git_revision = texts.firmware_git_revision;
  capability_at = capability_at;
  capability_count = capability_count;
}

-- The value of a hexadecimal digit, 0 to 9 or A to F; no other byte has one.
abbrev pub digit_value : ℕ → Option ℕ
digit_value byte =
    if leb b'0' byte && leb byte b'9'
    then some (byte - b'0')
    else if leb b'A' byte && leb byte b'F'
    then some (byte - b'A' + 10)
    else none

-- Reading a hexadecimal number back, behind the digits read so far; a text with another byte is none.
abbrev pub read_hexadecimal : ℕ → Bytes → Option ℕ
read_hexadecimal so_far [] = some so_far
read_hexadecimal so_far (byte ∷ text) = elim (digit_value byte) [
  | none ↦ none
  | some digit ↦ read_hexadecimal (so_far * 16 + digit) text
]

read-digit :
    (so_far byte digit : ℕ) (text : Bytes)
    → digit_value byte ≡ some digit
    → read_hexadecimal so_far (byte ∷ text) ≡ read_hexadecimal (so_far * 16 + digit) text
read-digit so_far byte digit text e =
    ap
      (λ (value : Option ℕ). elim value [
        | none ↦ none
        | some digit ↦ read_hexadecimal (so_far * 16 + digit) text
      ])
      e

-- A test that holds for all numbers below one.
abbrev below : ℕ → (ℕ → Bool) → Bool
below zero test = true
below (suc n) test = test n && below n test

below_lem : (n : ℕ) (test : ℕ → Bool) → below n test ≡ true → (d : ℕ) → d < n → test d ≡ true
below_lem zero test e d l = ground (arith, l)
below_lem (suc n) test e d l = elim (ℕ_discrete d n) [
  | yes same ↦ rw same (ground (arith, e))
  | no other ↦ below_lem n test (ground (arith, e)) d (omega (arith, l, other))
]

abbrev is_value : Option ℕ → ℕ → Bool
is_value none d = false
is_value (some value) d = value == d

is_value_lem : (o : Option ℕ) (d : ℕ) → is_value o d ≡ true → o ≡ some d
is_value_lem none d e = ground (arith, e)
is_value_lem (some value) d e = ground (arith, e)

digit_value-hexadecimal_at : (d : ℕ) → d < 16 → digit_value (hexadecimal_at d) ≡ some d
digit_value-hexadecimal_at d l =
    is_value_lem (digit_value (hexadecimal_at d)) d
      (below_lem 16 (λ d. is_value (digit_value (hexadecimal_at d)) d) refl d l)

digit-Prints : (d : ℕ) → d < 16 → Prints 1 (hexadecimal_at d ∷ [])
unfolding memchr
digit-Prints d l =
    let newline = below_lem 16 (λ d. not (hexadecimal_at d == b'\n')) refl d l in
    let return = below_lem 16 (λ d. not (hexadecimal_at d == b'\r')) refl d l in
    literal (hexadecimal_at d ∷ []) (ground (arith, newline)) (ground (arith, return))

-- A digit more.
shifted :
    (n word : ℕ)
    → n < 8
    → word / 2 ^ (4 * suc n) * 16 + word / 2 ^ (4 * n) % 16 ≡ word / 2 ^ (4 * n)
shifted zero word l = omega arith
shifted (suc zero) word l = omega arith
shifted (suc (suc zero)) word l = omega arith
shifted (suc (suc (suc zero))) word l = omega arith
shifted (suc (suc (suc (suc zero)))) word l = omega arith
shifted (suc (suc (suc (suc (suc zero))))) word l = omega arith
shifted (suc (suc (suc (suc (suc (suc zero)))))) word l = omega arith
shifted (suc (suc (suc (suc (suc (suc (suc zero))))))) word l = omega arith
shifted (suc (suc (suc (suc (suc (suc (suc (suc n)))))))) word l = omega (arith, l)

read-word :
    (n word : ℕ) → n ≤ 8 → read_hexadecimal (word / 2 ^ (4 * n)) (word_as_hex n word) ≡ some word
unfolding word_as_hex
read-word zero word l = let whole : word / 2 ^ 0 ≡ word = omega arith in ap some whole
read-word (suc n) word l =
    let digit = word / 2 ^ (4 * n) % 16 in
    read-digit (word / 2 ^ (4 * suc n)) (hexadecimal_at digit) digit (word_as_hex n word)
      (digit_value-hexadecimal_at digit (omega arith))
    ∙ subst (λ v. read_hexadecimal v (word_as_hex n word) ≡ some word) (sym (shifted n word l))
        (read-word n word (omega (arith, l)))

word-Prints : (n word : ℕ) → Prints n (word_as_hex n word)
unfolding word_as_hex memchr
word-Prints zero word = literal [] refl refl
word-Prints (suc n) word =
    Prints-le (omega arith)
      (digit-Prints (word / 2 ^ (4 * n) % 16) (omega arith) ⊕ word-Prints n word)

read-word_as_hex : (word : ℕ) → word < 2 ^ 32 → read_hexadecimal 0 (word_as_hex 8 word) ≡ some word
read-word_as_hex word l =
    let none_left : word / 2 ^ 32 ≡ 0 = omega (arith, l) in
    subst (λ so_far. read_hexadecimal so_far (word_as_hex 8 word) ≡ some word) none_left
      (read-word 8 word (omega arith))

-- The text of the unique id is printable, has 24 characters, all of them digits 0
-- to 9 or A to F, and reading each eight of them as a hexadecimal number gives back the three words.
pub session_metadata_read-uid :
    (word0 word1 word2 : ℕ) (texts : BuildTexts) (capability_at : ℕ → Bytes) (capability_count : ℕ)
    → word0 < 2 ^ 32
    → word1 < 2 ^ 32
    → word2 < 2 ^ 32
    → let uid =
        (session_metadata_read word0 word1 word2 texts capability_at capability_count).uid in
      Prints 24 uid
      × (length uid ≡ 24)
      × (read_hexadecimal 0 (take 8 uid) ≡ some word0)
      × (read_hexadecimal 0 (take 8 (drop 8 uid)) ≡ some word1)
      × (read_hexadecimal 0 (drop 16 uid) ≡ some word2)
unfolding session_metadata_read word_as_hex
session_metadata_read-uid word0 word1 word2 texts capability_at capability_count l0 l1 l2 = (
  word-Prints 8 word0 ⊕ (word-Prints 8 word1 ⊕ word-Prints 8 word2),
  refl,
  read-word_as_hex word0 l0,
  read-word_as_hex word1 l1,
  read-word_as_hex word2 l2,
)
