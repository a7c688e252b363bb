-- ===== src/Request/Parse/Colour.antt =====
-- What parse_rgb_parameters changes of a request: the colour, by bytes.
use flight_computer_test.Base.{
  ℕ, zero, suc, ◌≤◌, ◌≡◌, Bool, true, false, Option, none, some, List, Bytes, length, arith,
}
use flight_computer_test.Request.{Token, Request, parse_uint8}
use flight_computer_test.Request.Numbers.{parse_uint8_iff}
use flight_computer_test.Request.Parse.{
  ok, unless_seen, Channels, channel, channels, parse_rgb_parameters,
}

-- All but the colour stays.
abbrev pub KeepsRest : Request → Request → Type 0
KeepsRest r r' =
    (r'.type ≡ r.type)
    × (r'.command_id ≡ r.command_id)
    × (r'.test_uuid ≡ r.test_uuid)
    × (r'.test_type ≡ r.test_type)

-- The colour's channels are bytes.
abbrev pub IsColour : Request → Type 0
IsColour r = (r.red ≤ 255) × (r.green ≤ 255) × (r.blue ≤ 255)

pub unless_seen-ok :
    {A : Type 0} (seen : Bool) (found : Option A) (a : A)
    → unless_seen seen found ≡ ok a
    → (seen ≡ false) × (found ≡ some a)
unless_seen-ok true found a h = cc
unless_seen-ok false none a h = cc
unless_seen-ok false (some b) a h = ground arith

parse_uint8-le : (line : Bytes) (value : Token) (v : ℕ) → parse_uint8 line value ≡ some v → v ≤ 255
parse_uint8-le line value v h = ((parse_uint8_iff line value v).0 h).4

channel-ok :
    (line : Bytes) (key value : Token) (c c' : Channels)
    → IsColour c.request
    → channel line key value c ≡ ok c'
    → KeepsRest c.request c'.request × IsColour c'.request
unfolding channel
channel-ok line key value c c' b h = ground (
  arith,
  b,
  parse_uint8-le line value c'.request.red,
  parse_uint8-le line value c'.request.green,
  parse_uint8-le line value c'.request.blue,
)

channels-ok :
    (fuel : ℕ) (line : Bytes) (tokens : List Token) (parameters : Token) (index : ℕ) (c : Channels)
    (out : ℕ × Channels)
    → IsColour c.request
    → channels fuel line tokens parameters index c ≡ ok out
    → KeepsRest c.request out.1.request × IsColour out.1.request
unfolding channels
channels-ok zero line tokens parameters index c out b h = cc
channels-ok (suc fuel) line tokens parameters index c out b h =
    grind (arith, channel-ok line, channels-ok fuel line tokens parameters)

pub parse_rgb_parameters-ok :
    (line : Bytes) (tokens : List Token) (index : ℕ) (r : Request) (out : ℕ × Request)
    → IsColour r
    → parse_rgb_parameters line tokens index r ≡ ok out
    → KeepsRest r out.1 × IsColour out.1 × (out.1.rgb_colour_present ≡ true)
unfolding parse_rgb_parameters
parse_rgb_parameters-ok line tokens index r out b h =
    grind (arith, channels-ok (length tokens) line tokens)
