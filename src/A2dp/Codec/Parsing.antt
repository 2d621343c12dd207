-- ===== src/A2dp/Codec/Parsing.antt =====
-- How the codecs' `ParseConfiguration` returns: a chain of checks, each with its status.
use device_phh_treble_doze.Base.{Bool, true, false, Option, none, some}
use device_phh_treble_doze.A2dp.Codec.{A2dpStatus, ok}

-- The parameters are written on the last lines only, so a failure leaves them as they were.
pub data Parsed (P : Type 0) : Type 0 where
  parsed : P → Parsed P
  fails : A2dpStatus → Parsed P

abbrev pub status : {P : Type 0} → Parsed P → A2dpStatus
status (parsed p) = ok
status (fails s) = s

infixl 5 ◌>>=◌ ◌>>◌
abbrev pub ◌>>=◌ : {P Q : Type 0} → Parsed P → (P → Parsed Q) → Parsed Q
parsed p >>= f = f p
fails s >>= f = fails s

abbrev pub ◌>>◌ : {Q : Type 0} → Parsed (Unit {0}) → Parsed Q → Parsed Q
m >> k = m >>= λ _. k

-- `if (test) return s;`
abbrev pub fails_if : Bool → A2dpStatus → Parsed (Unit {0})
fails_if true s = fails s
fails_if false s = parsed tt

-- `if (bit < 0) return s;`
abbrev pub or_fail : {P : Type 0} → Option P → A2dpStatus → Parsed P
or_fail none s = fails s
or_fail (some p) s = parsed p

-- The common part of the parameters, as the base class's `ParseConfiguration` hands it on.
abbrev pub map_parsed : {P Q : Type 0} → (P → Q) → Parsed P → Parsed Q
map_parsed f (parsed p) = parsed (f p)
map_parsed f (fails s) = fails s
