-- ===== src/Request/Parse/Accepted.antt =====
-- What an accepted request holds, whatever the bytes of the line.
use flight_computer_test.Base.{
  ℕ, zero, suc, ◌+◌, ◌^◌, ◌<◌, ◌≡◌, ◌⊎◌, refl, subst, Bool, true, false, not, Option, some, List,
  [], ◌∷◌, Bytes, length, All, bytes_equal, ltb, if◌then◌else◌, arith,
}
use flight_computer_test.Base.Text.{codes}
use flight_computer_test.Request.{
  Token, is_object, Request, RequestType, start_test, run_component_test, stop_component_test,
  invalid, unsupported, token_equals, parse_positive_uint32, token_capacity,
}
use flight_computer_test.Request.Numbers.{parse_positive_uint32_iff}
use flight_computer_test.Request.Fields.{
  InLine, IsUuidLike, IsTestType, copy_test_uuid-IsUuidLike, copy_test_type-IsTestType,
}
use flight_computer_test.Request.Parse.{
  Parsed, ok, rejected, out_of_range, out_of_fuel, ◌>>=◌, token_at, Members, parameters_member,
  version_member, type_member, command_id_member, test_uuid_member, test_type_member, member,
  members, accepts, no_members, finish_request, parse_tokens, has_request_size,
  json_protocol_parse_request,
}
use flight_computer_test.Request.Parse.Colour.{KeepsRest, IsColour, parse_rgb_parameters-ok}

-- What the walk knows of the members that it has read.
record IsRead (m : Members) : Type 0 where
  id : (m.command_id_seen ≡ false) ⊎ ((0 < m.request.command_id) × (m.request.command_id < 2 ^ 32))
  uuid :
      ((m.test_uuid_seen ≡ false) × (m.request.test_uuid ≡ []))
      ⊎ ((m.test_uuid_seen ≡ true) × IsUuidLike m.request.test_uuid)
  type :
      ((m.test_type_seen ≡ false) × (m.request.test_type ≡ []))
      ⊎ ((m.test_type_seen ≡ true) × IsTestType m.request.test_type)
  present : m.parameters_seen ≡ m.request.rgb_colour_present
  colour : IsColour m.request

-- The parameters change the colour alone.
parameters_member-ok :
    (line : Bytes) (tokens : List Token) (index : ℕ) (m : Members) (out : ℕ × Members)
    → IsColour m.request
    → parameters_member line tokens index m ≡ ok out
    → KeepsRest m.request out.1.request
      × IsColour out.1.request
      × (out.1.request.rgb_colour_present ≡ true)
      × (out.1.parameters_seen ≡ true)
      × (out.1.command_id_seen ≡ m.command_id_seen)
      × (out.1.test_uuid_seen ≡ m.test_uuid_seen)
      × (out.1.test_type_seen ≡ m.test_type_seen)
unfolding parameters_member
parameters_member-ok line tokens index m out b h =
    grind (arith, parse_rgb_parameters-ok line tokens index m.request)

positive-bounds :
    (line : Bytes) (value : Token) (n : ℕ)
    → parse_positive_uint32 line value ≡ some n
    → (0 < n) × (n < 2 ^ 32)
positive-bounds line value n h =
    let (_, _, _, _, lo, hi) = (parse_positive_uint32_iff line value n).0 h in (lo, hi)

-- A test between two steps: what both come to.
if-ok :
    {A P : Type 0} (b : Bool) {x y : Parsed A} {out : A}
    → (x ≡ ok out → P)
    → (y ≡ ok out → P)
    → (if b then x else y) ≡ ok out
    → P
if-ok true f g h = f h
if-ok false f g h = g h

module _ (line : Bytes) (value : Token) (index : ℕ) (m : Members) (out : ℕ × Members)
    (inside : InLine line value) (v : IsRead m) where
  version-IsRead : version_member line value index m ≡ ok out → IsRead out.1
  unfolding version_member
  version-IsRead h = ground arith

  type-IsRead : type_member line value index m ≡ ok out → IsRead out.1
  unfolding type_member
  type-IsRead h = ground arith

  command_id-IsRead : command_id_member line value index m ≡ ok out → IsRead out.1
  unfolding command_id_member
  command_id-IsRead h = ground (arith, positive-bounds line value out.1.request.command_id)

  test_uuid-IsRead : test_uuid_member line value index m ≡ ok out → IsRead out.1
  unfolding test_uuid_member
  test_uuid-IsRead h =
      ground (arith, copy_test_uuid-IsUuidLike line value out.1.request.test_uuid inside)

  test_type-IsRead : test_type_member line value index m ≡ ok out → IsRead out.1
  unfolding test_type_member
  test_type-IsRead h =
      ground (arith, copy_test_type-IsTestType line value out.1.request.test_type inside)

  parameters-IsRead :
      (tokens : List Token) → parameters_member line tokens index m ≡ ok out → IsRead out.1
  parameters-IsRead tokens h =
      ground (arith, parameters_member-ok line tokens index m out v.colour h)

member-IsRead :
    (line : Bytes) (tokens : List Token) (key value : Token) (index : ℕ) (m : Members)
    (out : ℕ × Members)
    → InLine line value
    → IsRead m
    → member line tokens key value index m ≡ ok out
    → IsRead out.1
unfolding member
member-IsRead line tokens key value index m out i v =
    if-ok (token_equals line key (codes "protocol_version"))
      (version-IsRead line value index m out i v)
      (if-ok (token_equals line key (codes "type")) (type-IsRead line value index m out i v) (
        if-ok (token_equals line key (codes "command_id"))
          (command_id-IsRead line value index m out i v)
          (if-ok (token_equals line key (codes "test_uuid"))
            (test_uuid-IsRead line value index m out i v)
            (if-ok (token_equals line key (codes "test_type"))
              (test_type-IsRead line value index m out i v)
              (if-ok (token_equals line key (codes "parameters"))
                (parameters-IsRead line value index m out i v tokens) (λ h. cc))))))

pub bind-ok :
    {A B : Type 0} (m : Parsed A) (f : A → Parsed B) {b : B}
    → m >>= f ≡ ok b
    → (a : A) × (m ≡ ok a) × (f a ≡ ok b)
bind-ok (ok a) f h = (a, refl, h)
bind-ok rejected f h = cc
bind-ok out_of_range f h = cc
bind-ok out_of_fuel f h = cc

token_at-InLine :
    (line : Bytes) (tokens : List Token) (index : ℕ) (t : Token)
    → All (InLine line) tokens
    → token_at tokens index ≡ ok t
    → InLine line t
token_at-InLine line [] index t a h = cc
token_at-InLine line (x ∷ tokens) zero t a h = subst (InLine line) (ground arith) a.0
token_at-InLine line (x ∷ tokens) (suc index) t a h = token_at-InLine line tokens index t a.1 h

members-IsRead :
    (fuel : ℕ) (line : Bytes) (tokens : List Token) (index : ℕ) (m m' : Members)
    → All (InLine line) tokens
    → IsRead m
    → members fuel line tokens index m ≡ ok m'
    → IsRead m'
unfolding members
members-IsRead zero line tokens index m m' a v = λ h. cc
members-IsRead (suc fuel) line tokens index m m' a v =
    if-ok (ltb index (length tokens))
      (λ h.
        let (key, k, h1) = bind-ok (token_at tokens index) _ h in
        let (value, w, h2) = bind-ok (token_at tokens (index + 1)) _ h1 in
        let (out, o, h3) = bind-ok (member line tokens key value (index + 2) m) _ h2 in
        members-IsRead fuel line tokens out.0 out.1 m' a
          (member-IsRead line tokens key value (index + 2) m out
            (token_at-InLine line tokens (index + 1) value a w) v o)
          h3)
      (λ h. subst IsRead (ground arith) v)

-- What each type of request carries, and what it does not.
pub data Shape (r : Request) : Type 0 where
  start :
      r.type ≡ start_test
      → IsUuidLike r.test_uuid
      → r.test_type ≡ []
      → r.rgb_colour_present ≡ false
      → Shape r
  run :
      r.type ≡ run_component_test
      → r.test_uuid ≡ []
      → IsTestType r.test_type
      → r.rgb_colour_present ≡ bytes_equal r.test_type (codes "rgb_led")
      → Shape r
  stop :
      r.type ≡ stop_component_test
      → r.test_uuid ≡ []
      → r.test_type ≡ []
      → r.rgb_colour_present ≡ false
      → Shape r

pub record IsAccepted (r : Request) : Type 0 where
  pub id_positive : 0 < r.command_id
  pub id_fits : r.command_id < 2 ^ 32
  pub colour : IsColour r
  pub shape : Shape r

accepts-Shape :
    (type : RequestType) (n : ℕ) (m : Members)
    → m.request.type ≡ type
    → IsRead m
    → accepts n m type ≡ true
    → Shape m.request
unfolding accepts
accepts-Shape start_test n m t v h = start t (ground arith) (ground arith) (ground arith)
accepts-Shape run_component_test n m t v h = run t (ground arith) (ground arith) (ground arith)
accepts-Shape stop_component_test n m t v h = stop t (ground arith) (ground arith) (ground arith)
accepts-Shape invalid n m t v h = cc
accepts-Shape unsupported n m t v h = cc

finish_request-IsAccepted :
    (n : ℕ) (m : Members) (r : Request) → IsRead m → finish_request n m ≡ ok r → IsAccepted r
unfolding finish_request
finish_request-IsAccepted n m r v h =
    let same : m.request ≡ r = ground arith in
    let shape = accepts-Shape m.request.type n m refl v (ground arith) in
    subst IsAccepted same (record {
      id_positive = ground (arith, v.id);
      id_fits = ground (arith, v.id);
      colour = v.colour;
      shape = shape;
    })

no_members-IsRead : IsRead no_members
no_members-IsRead = ground arith

pub parse_tokens-IsAccepted :
    (line : Bytes) (tokens : List Token) (r : Request)
    → All (InLine line) tokens
    → parse_tokens line tokens ≡ ok r
    → IsAccepted r
unfolding parse_tokens
parse_tokens-IsAccepted line tokens r a =
    if-ok (not (has_request_size (length tokens))) (λ h. cc)
      (λ h.
        let (object, _, h1) = bind-ok (token_at tokens 0) _ h in
        let (m, e, h2) =
          bind-ok
            (if not (is_object object.type)
              then rejected
              else members (length tokens) line tokens 1 no_members)
            _ h1 in
        finish_request-IsAccepted (length tokens) m r
          (if-ok (not (is_object object.type)) (λ h. cc)
            (members-IsRead (length tokens) line tokens 1 no_members m a no_members-IsRead) e)
          h2)

-- If the tokens of jsmn lie inside the line, each request that is accepted has a command id from 1
-- to 2 ^ 32 - 1 and byte-sized colour channels; one that starts a session carries a text in
-- the shape of a lowercase UUID with the version digit 4 and neither test type nor colour, one that runs a test carries a test type, no UUID,
-- and a colour exactly if the type is rgb_led, and one that stops a test carries none of these; no
-- request of another type is accepted.
pub json_protocol_parse_request-IsAccepted :
    (jsmn_parse : Bytes → ℕ → Option (List Token)) (line : Bytes) (tokens : List Token)
    (r : Request)
    → jsmn_parse line token_capacity ≡ some tokens
    → All (InLine line) tokens
    → json_protocol_parse_request jsmn_parse line ≡ ok r
    → IsAccepted r
unfolding json_protocol_parse_request
json_protocol_parse_request-IsAccepted jsmn_parse line tokens r e a h =
    parse_tokens-IsAccepted line tokens r a (ground (arith, e, h))
