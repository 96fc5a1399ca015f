-- ===== src/V5/PayloadFormat/Laws.antt =====
-- The format of a payload is written only if it is text, and is read back.
use mymq.Base.{Option, none, some, ◌≡◌, refl}
use mymq.Error.{ok, ◌>>=◌}
use mymq.Types.U8
use mymq.V5.PropertyType.{PropertyType}
use mymq.V5.Property.{Property, encode_value}
use mymq.V5.Frame.Puts.{opt, Puts, put_prop-Puts, put_nothing}
use mymq.V5.PayloadFormat.{PayloadFormat, binary, text, try_from, to_u8, put_format}

-- Binary is the default, and is left out.
abbrev pub format_opt : PayloadFormat → Option PayloadFormat
format_opt binary = none
format_opt text = some text

abbrev pub make_format : PayloadFormat → Property
make_format format = Property.payload_format_indicator (to_u8 format)

abbrev pub or_binary : Option PayloadFormat → PayloadFormat
or_binary none = binary
or_binary (some format) = format

pub or_binary-format_opt : (format : PayloadFormat) → or_binary (format_opt format) ≡ format
or_binary-format_opt binary = refl
or_binary-format_opt text = refl

pub put_format-Puts :
    (format : PayloadFormat) → Puts (put_format format) (opt make_format (format_opt format))
unfolding put_format
put_format-Puts binary = put_nothing
put_format-Puts text =
    put_prop-Puts Property.payload_format_indicator PropertyType.payload_format_indicator U8.encode
      (λ v. unfold encode_value in refl) (to_u8 text)

pub set_format :
    {P : Type 0} (format : PayloadFormat) (make : PayloadFormat → P)
    → (try_from (to_u8 format) >>= λ f. ok (make f)) ≡ ok (make format)
unfolding try_from to_u8
set_format binary make = refl
set_format text make = refl
