-- ===== src/Request/Parse/Settled.antt =====
-- Every line is either accepted or rejected.
use flight_computer_test.Base.{ℕ, ◌≡◌, refl, subst, Option, none, some, List, Bytes, All}
use flight_computer_test.Request.{Token, Request, token_capacity}
use flight_computer_test.Request.Fields.{InLine}
use flight_computer_test.Request.Parse.{
  Parsed, ok, rejected, out_of_range, out_of_fuel, parse_tokens, json_protocol_parse_request,
}
use flight_computer_test.Request.Parse.Accepted.{IsAccepted, parse_tokens-IsAccepted}
use flight_computer_test.Request.Parse.Safe.{Returns, Anything, parse_tokens-Returns}

-- What the tokenizer documents: its tokens lie inside the line.
abbrev pub TokenizesInLine : (Bytes → ℕ → Option (List Token)) → Type 0
TokenizesInLine jsmn_parse =
    (line : Bytes) (tokens : List Token)
    → jsmn_parse line token_capacity ≡ some tokens
    → All (InLine line) tokens

tokens-Returns :
    (line : Bytes) (tokens : List Token) (result : Parsed Request)
    → All (InLine line) tokens
    → parse_tokens line tokens ≡ result
    → Returns IsAccepted result
tokens-Returns line tokens (ok r) a e = parse_tokens-IsAccepted line tokens r a e
tokens-Returns line tokens rejected a e = tt
tokens-Returns line tokens out_of_range a e =
    subst (Returns Anything) e (parse_tokens-Returns line tokens)
tokens-Returns line tokens out_of_fuel a e =
    subst (Returns Anything) e (parse_tokens-Returns line tokens)

-- If the tokens of jsmn lie inside the line, the parser comes to an end on every line without
-- reading outside the tokens, and it rejects the line or accepts a request of the protocol.
pub json_protocol_parse_request-Returns :
    (jsmn_parse : Bytes → ℕ → Option (List Token)) (line : Bytes)
    → TokenizesInLine jsmn_parse
    → Returns IsAccepted (json_protocol_parse_request jsmn_parse line)
unfolding json_protocol_parse_request
json_protocol_parse_request-Returns jsmn_parse line inside =
    go (jsmn_parse line token_capacity) refl
  where
    go :
        (found : Option (List Token))
        → jsmn_parse line token_capacity ≡ found
        → Returns IsAccepted
            (elim found [ none ↦ rejected | some tokens ↦ parse_tokens line tokens ])
    go none e = tt
    go (some tokens) e = tokens-Returns line tokens _ (inside line tokens e) refl
