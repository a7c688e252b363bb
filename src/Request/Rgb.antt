-- ===== src/Request/Rgb.antt =====
-- What a step of the parser comes to, and parse_rgb_parameters of
-- firmware/manufacturing_test/protocol/json_protocol.c.
use flight_computer_test.Base.{
  ℕ, zero, suc, ◌+◌, ◌-◌, Bool, true, false, not, ◌||◌, Option, none, some, List, Bytes, length,
  get_elem?, ltb, if◌then◌else◌,
}
use flight_computer_test.Base.Text.{codes}
use flight_computer_test.Request.{Token, is_object, Request, token_equals, parse_uint8}

-- What a step of the parser comes to: a result, `return false`, a read outside the tokens that the
-- tokenizer has returned, or a loop that has run out of its fuel.
pub data Parsed {ℓ} (A : Type ℓ) : Type ℓ where
  ok : A → Parsed A
  rejected : Parsed A
  out_of_range : Parsed A
  out_of_fuel : Parsed A

infixl 5 ◌>>=◌
abbrev pub ◌>>=◌ {ℓ κ} : {A : Type ℓ} {B : Type κ} → Parsed A → (A → Parsed B) → Parsed B
ok a >>= f = f a
rejected >>= f = rejected
out_of_range >>= f = out_of_range
out_of_fuel >>= f = out_of_fuel

abbrev pub token_at : List Token → ℕ → Parsed Token
token_at tokens index = elim (get_elem? tokens index) [ none ↦ out_of_range | some t ↦ ok t ]

-- The value that a reader found, or `return false`.
abbrev pub or_reject {ℓ} : {A : Type ℓ} → Option A → Parsed A
or_reject none = rejected
or_reject (some a) = ok a

-- A member that has been seen must not come twice.
abbrev pub unless_seen {ℓ} : {A : Type ℓ} → Bool → Option A → Parsed A
unless_seen true found = rejected
unless_seen false found = or_reject found

-- The flags of parse_rgb_parameters with the request that it writes into.
pub record Channels : Type 0 where
  pub red_seen : Bool
  pub green_seen : Bool
  pub blue_seen : Bool
  pub request : Request

-- The body of the loop of parse_rgb_parameters.
unfoldable pub channel : Bytes → Token → Token → Channels → Parsed Channels
channel line key value c =
    if token_equals line key (codes "red")
    then (do
      v ← unless_seen c.red_seen (parse_uint8 line value)
      ok (record c { red_seen = true; request = record (c.request) { red = v } }))
    else if token_equals line key (codes "green")
    then (do
      v ← unless_seen c.green_seen (parse_uint8 line value)
      ok (record c { green_seen = true; request = record (c.request) { green = v } }))
    else if token_equals line key (codes "blue")
    then (do
      v ← unless_seen c.blue_seen (parse_uint8 line value)
      ok (record c { blue_seen = true; request = record (c.request) { blue = v } }))
    else rejected

-- The loop: each round takes two tokens, so the number of tokens is fuel enough.
unfoldable pub channels : ℕ → Bytes → List Token → Token → ℕ → Channels → Parsed (ℕ × Channels)
channels zero line tokens parameters index c = out_of_fuel
channels (suc fuel) line tokens parameters index c =
    let round = do
      key ← token_at tokens index
      value ← token_at tokens (index + 1)
      c' ← channel line key value c
      channels fuel line tokens parameters (index + 2) c'
    in let more = token_at tokens index >>= λ t.
    if ltb t.start parameters.end then round else ok (index, c) in
      if ltb (index + 1) (length tokens) then more else ok (index, c)

-- Whether the parameters are complete, and the request with them.
abbrev pub finish_channels : List Token → ℕ × Channels → Parsed (ℕ × Request)
finish_channels tokens (index, c) =
    if ltb (length tokens) index || not c.red_seen || not c.green_seen || not c.blue_seen
    then rejected
    else ok (index, record (c.request) { rgb_colour_present = true })

abbrev pub no_channels : Request → Channels
no_channels request = record {
  red_seen = false;
  green_seen = false;
  blue_seen = false;
  request = request;
}

-- parse_rgb_parameters: the request and the index behind the parameters. `index` is the caller's,
-- already behind the token of the object.
unfoldable pub parse_rgb_parameters : Bytes → List Token → ℕ → Request → Parsed (ℕ × Request)
parse_rgb_parameters line tokens index request = do
  parameters ← token_at tokens (index - 1)
  let seen = channels (length tokens) line tokens parameters index (no_channels request)
  found ← if not (is_object parameters.type) then rejected else seen
  finish_channels tokens found
