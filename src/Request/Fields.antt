-- ===== src/Request/Fields.antt =====
-- What the text readers accept: the texts of UUIDs and of test types.
use flight_computer_test.Base.{
  ℕ, zero, suc, ◌+◌, ◌≤◌, ◌<◌, ◌≡◌, ◌⊎◌, ◌↔◌, false, Bool, not, ◌&&◌, ◌||◌, ap, sym, subst, memchr,
  inl, inr, refl, ◌∙◌, Bool-cases, true, some, [], ◌∷◌, Bytes, length, length-take, length-drop,
  get_elem?, take, drop, All, ◌==◌, if◌then◌else◌, arith,
}
use flight_computer_test.Base.Text.{codes}
use flight_computer_test.Request.{
  Token, string, is_hexadecimal, token_length, token_text, uuid_characters, is_hyphen_place,
  copy_test_uuid, test_uuid_length, type_characters, copy_test_type, test_type_capacity,
}

-- A token lies inside its line. The tokenizer returns no other.
pub record InLine (line : Bytes) (token : Token) : Type 0 where
  pub forward : token.start ≤ token.end
  pub inside : token.end ≤ length line

pub length-token_text :
    (line : Bytes) (token : Token)
    → InLine line token
    → length (token_text line token) ≡ token_length token
unfolding token_text
length-token_text line token h =
    omega (
      arith,
      length-take (token_length token) (drop token.start line),
      length-drop token.start line,
    )

abbrev pub IsHexadecimal : ℕ → Type 0
IsHexadecimal c = ((b'0' ≤ c) × (c ≤ b'9')) ⊎ ((b'a' ≤ c) × (c ≤ b'f'))

-- A text follows a pattern, in which an x stands for a lowercase hexadecimal digit.
abbrev pub Follows : Bytes → Bytes → Type 0
Follows [] [] = Unit
Follows [] (c ∷ cs) = ⊥
Follows (p ∷ ps) [] = ⊥
Follows (p ∷ ps) (c ∷ cs) = (if p == b'x' then IsHexadecimal c else (c ≡ p)) × Follows ps cs

abbrev pub uuid_pattern : Bytes
uuid_pattern = codes "xxxxxxxx-xxxx-xxxx-xxxx-xxxxxxxxxxxx"

-- The shape of a UUID in lowercase, with the digit of version 4. The digit of the variant, behind the
-- third hyphen, is any: RFC 4122 has 8, 9, a or b there.
abbrev pub IsUuidLike : Bytes → Type 0
IsUuidLike text = Follows uuid_pattern text × (get_elem? text 14 ≡ some b'4')

-- The pattern from place `i` on.
abbrev pattern_from : ℕ → ℕ → Bytes
pattern_from zero i = []
pattern_from (suc n) i = (if is_hyphen_place i then b'-' else b'x') ∷ pattern_from n (i + 1)

uuid_characters-Follows :
    (n i : ℕ) (cs : Bytes)
    → length cs ≡ n
    → uuid_characters i cs ≡ true
    → Follows (pattern_from n i) cs
unfolding uuid_characters
uuid_characters-Follows zero i [] l h = tt
uuid_characters-Follows zero i (c ∷ cs) l h = absurd (omega arith)
uuid_characters-Follows (suc n) i [] l h = absurd (omega arith)
uuid_characters-Follows (suc n) i (c ∷ cs) l h =
    let rest = uuid_characters-Follows n (i + 1) cs (omega arith) (ground arith) in
    elim (Bool-cases (is_hyphen_place i)) [
      | inl hyphen ↦ rw hyphen (ground arith, rest)
      | inr other ↦ rw other (ground arith, rest)
    ]

get_elem?-take : (n i : ℕ) (xs : Bytes) → i < n → get_elem? (take n xs) i ≡ get_elem? xs i
get_elem?-take zero i xs h = elim h [ ]
get_elem?-take (suc n) i [] h = refl
get_elem?-take (suc n) zero (x ∷ xs) h = refl
get_elem?-take (suc n) (suc i) (x ∷ xs) h = get_elem?-take n i xs (omega arith)

get_elem?-drop :
    (n s i : ℕ) (xs : Bytes) → i < n → get_elem? (take n (drop s xs)) i ≡ get_elem? xs (s + i)
get_elem?-drop n zero i xs h = let e : 0 + i ≡ i = omega arith in rw e (get_elem?-take n i xs h)
get_elem?-drop n (suc s) i [] h = get_elem?-take n i [] h
get_elem?-drop n (suc s) i (x ∷ xs) h =
    let e : suc s + i ≡ suc (s + i) = omega arith in rw e (get_elem?-drop n s i xs h)

get_elem?-token_text :
    (line : Bytes) (token : Token) (i : ℕ)
    → i < token_length token
    → get_elem? (token_text line token) i ≡ get_elem? line (token.start + i)
unfolding token_text
get_elem?-token_text line token i l = get_elem?-drop (token_length token) token.start i line l

-- What copy_test_uuid copies is the text of the token, and has that shape.
pub copy_test_uuid-IsUuidLike :
    (line : Bytes) (token : Token) (text : Bytes)
    → InLine line token
    → copy_test_uuid line token ≡ some text
    → IsUuidLike text
unfolding copy_test_uuid
copy_test_uuid-IsUuidLike line token text h e =
    let same : text ≡ token_text line token = ground arith in
    let long : token_length token ≡ test_uuid_length = ground arith in
    let shape =
      uuid_characters-Follows test_uuid_length 0 (token_text line token)
        (omega (arith, length-token_text line token h)) (ground arith) in
    let version : get_elem? line (token.start + 14) ≡ some b'4' = ground arith in
    rw same (shape, get_elem?-token_text line token 14 (omega arith) ∙ version)

fitting :
    (hyphen : Bool) (c : ℕ)
    → (if (if hyphen then b'-' else b'x') == b'x'
        then IsHexadecimal c
        else (c ≡ (if hyphen then b'-' else b'x')))
    → (((hyphen && not (c == b'-')) || (not hyphen && not (is_hexadecimal c))) ≡ false)
      × ((c == b'\\') ≡ false)
fitting true c e = (ground (arith, e), ground (arith, e))
fitting false c e = (ground (arith, e), ground (arith, e))

-- The characters of the pattern pass the loop, and none of them is a backslash.
Follows-uuid_characters :
    (n i : ℕ) (cs : Bytes)
    → Follows (pattern_from n i) cs
    → (length cs ≡ n) × (uuid_characters i cs ≡ true) × (memchr cs b'\\' ≡ false)
unfolding uuid_characters memchr
Follows-uuid_characters zero i [] f = (refl, refl, refl)
Follows-uuid_characters zero i (c ∷ cs) f = absurd f
Follows-uuid_characters (suc n) i [] f = absurd f
Follows-uuid_characters (suc n) i (c ∷ cs) (here, later) =
    let (size, passes, plain) = Follows-uuid_characters n (i + 1) cs later in
    let (kept, clean) = fitting (is_hyphen_place i) c here in
    (ap suc size, rw kept passes, rw clean plain)

-- copy_test_uuid accepts exactly the strings of that shape, and copies their text.
pub copy_test_uuid_iff :
    (line : Bytes) (token : Token) (text : Bytes)
    → InLine line token
    → (copy_test_uuid line token ≡ some text)
      ↔ ((token.type ≡ string) × (text ≡ token_text line token) × IsUuidLike text)
unfolding copy_test_uuid
copy_test_uuid_iff line token text h = (
  λ e. (ground (arith, e), ground (arith, e), copy_test_uuid-IsUuidLike line token text h e),
  λ (quoted, same, (shape, version)).
      let (size, passes, plain) =
        Follows-uuid_characters test_uuid_length 0 (token_text line token)
          (subst (Follows uuid_pattern) same shape) in
      let long : token_length token ≡ 36 = omega (arith, length-token_text line token h, size) in
      let version' : get_elem? line (token.start + 14) ≡ some b'4' =
        sym (get_elem?-token_text line token 14 (omega (arith, long)))
        ∙ sym (ap (λ t. get_elem? t 14) same)
        ∙ version in
      rw same (rw quoted (ground (arith, long, passes, plain, version'))),
)

-- The texts that name a test: lowercase letters, digits and underscores.
abbrev pub IsTypeCharacter : ℕ → Type 0
IsTypeCharacter c = ((b'a' ≤ c) × (c ≤ b'z')) ⊎ ((b'0' ≤ c) × (c ≤ b'9')) ⊎ (c ≡ b'_')

pub record IsTestType (text : Bytes) : Type 0 where
  pub characters : All IsTypeCharacter text
  pub nonempty : 0 < length text
  pub short : length text < test_type_capacity

type_characters-All : (cs : Bytes) → type_characters cs ≡ true → All IsTypeCharacter cs
unfolding type_characters
type_characters-All [] h = tt
type_characters-All (c ∷ cs) h = (ground arith, type_characters-All cs (ground arith))

-- What copy_test_type copies of a token inside the line names a test, and fits into its array with a NUL.
pub copy_test_type-IsTestType :
    (line : Bytes) (token : Token) (text : Bytes)
    → InLine line token
    → copy_test_type line token ≡ some text
    → IsTestType text
unfolding copy_test_type
copy_test_type-IsTestType line token text h e =
    let same : text ≡ token_text line token = ground arith in
    rw same (record {
      characters = type_characters-All (token_text line token) (ground arith);
      nonempty = ground (arith, length-token_text line token h);
      short = ground (arith, length-token_text line token h);
    })
