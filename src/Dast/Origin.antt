-- ===== src/Dast/Origin.antt =====
-- apps/control-plane/src/dast-session.ts: the origins and addresses that profiles and requests may name.
use Prim.Native.String.{[], ◌∷◌}
use Prim.Native.Char.{Char, code}
use guardianbot.Prelude.Js.{nat, str, Json, Number}
use guardianbot.Prelude.Text.{to_lower, ends_with}
use guardianbot.Prelude.{
  ◌∷◌, [], Option, Result, some, none, ok, err, string_eq, ◌||◌, ◌&&◌, ◌==◌, not, includes, any,
  String, ℕ, List, Bool, if◌then◌else◌, nat_beq, leb, map, false, ◌+s◌, all,
}
use guardianbot.Dast.Fields.{Engine, Url, DastError, thrown}
use guardianbot.Dast.Words.{utf16_length, starts_with, is_digit}

unfoldable pub strip_open : String → String
strip_open [] = []
strip_open (c ∷ s) = if nat_beq (code c) 91 then s else c ∷ s

unfoldable pub strip_close : String → String
strip_close [] = []
strip_close (c ∷ s) =
    let rest = strip_close s in if nat_beq (code c) 93 && (s == "") then [] else c ∷ rest

-- `replace(/^\[|\]$/g, "")`
unfoldable pub without_brackets : String → String
unfolding strip_open strip_close
without_brackets text = strip_close (strip_open text)

-- `value.split(".")`, in front of the parts that come behind
unfoldable pub split_dots : String → List String
split_dots [] = "" ∷ []
split_dots (c ∷ s) =
    let rest = split_dots s in if nat_beq (code c) 46 then "" ∷ rest else prepend c rest
  where
    prepend : Char → List String → List String
    prepend d [] = []
    prepend d (part ∷ parts) = (d ∷ part) ∷ parts

-- `Number.isInteger(part) && part >= 0 && part <= 255`
unfoldable pub is_octet : Number → Bool
is_octet (nat n) = leb n 255
is_octet _ = false

unfoldable pub octet_value : Number → ℕ
octet_value (nat n) = n
octet_value _ = 0

unfoldable pub is_private_address : ℕ → ℕ → Bool
is_private_address first second =
    nat_beq first 0
    || nat_beq first 10
    || nat_beq first 127
    || (nat_beq first 169 && nat_beq second 254)
    || (nat_beq first 172 && leb 16 second && leb second 31)
    || (nat_beq first 192 && nat_beq second 168)

-- The first two octets of a host that is an address of four; `none` where it is none.
unfoldable pub octets_of : List Number → Option (ℕ × ℕ)
unfolding is_octet octet_value
octets_of (a ∷ b ∷ c ∷ d ∷ []) =
    if all is_octet (a ∷ b ∷ c ∷ d ∷ []) then some (octet_value a, octet_value b) else none
octets_of _ = none

-- `[0-9a-f]`
abbrev pub is_hex_digit : ℕ → Bool
is_hex_digit c = is_digit c || (leb 97 c && leb c 102)

-- `/^f[cd][0-9a-f]:/` and `/^fe[89ab][0-9a-f]:/`
unfoldable pub is_local_v6 : String → Bool
is_local_v6 (c ∷ d ∷ e ∷ f ∷ s) =
    nat_beq (code c) 102
    && ((((nat_beq (code d) 99 || nat_beq (code d) 100) && is_hex_digit (code e))
          && nat_beq (code f) 58)
        || (nat_beq (code d) 101
            && (nat_beq (code e) 56
                || nat_beq (code e) 57
                || nat_beq (code e) 97
                || nat_beq (code e) 98)
            && is_hex_digit (code f)
            && starts_with s ":"))
is_local_v6 _ = false

module _ (engine : Engine) where
  unfoldable pub is_private_host : String → Bool
  unfolding octets_of is_private_address is_local_v6 split_dots
  is_private_host value =
      includes ("localhost" ∷ "::1" ∷ "0:0:0:0:0:0:0:1" ∷ []) value
      || any (ends_with value) (".localhost" ∷ ".local" ∷ ".internal" ∷ [])
      || elim (octets_of (map engine.to_number (split_dots value))) [
        | some (first, second) ↦ is_private_address first second
        | none ↦ is_local_v6 value
      ]

  unfoldable pub private_or_local_host : String → Bool
  unfolding is_private_host without_brackets
  private_or_local_host hostname = is_private_host (without_brackets (to_lower hostname))

  unfoldable pub is_public_origin : Url → Bool
  unfolding private_or_local_host
  is_public_origin url =
      url.protocol == "https:"
      && url.username == ""
      && url.password == ""
      && url.pathname == "/"
      && url.search == ""
      && url.hash == ""
      && not (private_or_local_host url.hostname)

  unfoldable pub origin_of : Option Url → String → Result DastError String
  unfolding is_public_origin
  origin_of none label = err (thrown "Invalid URL")
  origin_of (some url) label =
      if is_public_origin url
      then ok url.origin
      else err (thrown (label +s " must be an exact public HTTPS origin"))

  unfoldable pub exact_public_https_origin : Option Json → String → Result DastError String
  unfolding origin_of utf16_length
  exact_public_https_origin (some (str text)) label =
      if leb (utf16_length text) 2_048
      then origin_of (engine.parse_url text) label
      else err (thrown (label +s " is invalid"))
  exact_public_https_origin _ label = err (thrown (label +s " is invalid"))

  unfoldable pub is_exchange_url : String → Url → Bool
  is_exchange_url origin url =
      url.protocol == "https:"
      && url.origin == origin
      && url.username == ""
      && url.password == ""
      && not (url.pathname == "/")
      && url.search == ""
      && url.hash == ""

  unfoldable pub exchange_url_of : Option Url → String → Result DastError String
  unfolding is_exchange_url
  exchange_url_of none origin = err (thrown "Invalid URL")
  exchange_url_of (some url) origin =
      if is_exchange_url origin url
      then ok url.href
      else err (thrown "exchangeUrl must be a same-origin HTTPS path without query or credentials")

  unfoldable pub exact_exchange_url : Option Json → String → Result DastError String
  unfolding exchange_url_of utf16_length
  exact_exchange_url (some (str text)) origin =
      if leb (utf16_length text) 2_048
      then exchange_url_of (engine.parse_url text) origin
      else err (thrown "exchangeUrl is invalid")
  exact_exchange_url _ origin = err (thrown "exchangeUrl is invalid")
