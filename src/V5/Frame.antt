-- ===== src/V5/Frame.antt =====
-- What the packets of v5 share: the fixed header in front, and the list of properties.
pub mod Lists
pub mod Rounds
pub mod Puts
pub mod Sets
pub mod Whole
pub mod Opts
pub mod Safe
pub mod Received
use mymq.Base.{
  ℕ, zero, suc, ◌+◌, ◌^◌, Bool, true, false, not, ◌&&◌, ◌||◌, List, [], ◌∷◌, ◌++◌, Option, none,
  some, length, take, drop, ltb, ◌==◌, if◌then◌else◌,
}
use mymq.Error.{Error, ErrorKind, Result, ok, err, panic, protocol, ◌>>=◌, ◌>>◌}
use mymq.Types.Blob.{Blob, large, as_ref, Decoder, advance, dec_field}
use mymq.Types.VarU32
use mymq.V5.Header
use mymq.V5.Header.{FixedHeader}
use mymq.V5.PropertyType
use mymq.V5.PropertyType.{PropertyType}
use mymq.V5.Property
use mymq.V5.Property.{Property, to_property_type, enc_prop}

-- `extend_from_slice(bytes)`, `copy_within(..a, n)`, and `bytes` over the front.
unfoldable pub insert_front : List ℕ → List ℕ → List ℕ
insert_front bytes buf =
    let longer = buf ++ bytes in
    let moved = take (length bytes) longer ++ take (length buf) longer in
    bytes ++ drop (length bytes) moved

unfoldable pub insert_fixed_header : FixedHeader → List ℕ → Result (List ℕ)
unfolding insert_front
insert_fixed_header fh buf = do blob ← Header.encode fh; ok (insert_front (as_ref blob) buf)

abbrev pub try_from_int : Error
try_from_int = record { kind = ErrorKind.try_from_int_error; code = none }

-- `u32::try_from(n)?`
unfoldable pub to_u32 : ℕ → Result ℕ
to_u32 n = if ltb n (2 ^ 32) then ok n else err try_from_int

unfoldable pub insert_property_len : ℕ → List ℕ → Result (List ℕ)
unfolding to_u32 insert_front
insert_property_len n buf = do
  m ← to_u32 n
  blob ← VarU32.encode m
  ok (insert_front (as_ref blob) buf)

-- `dups[pt as usize] = true`
unfoldable pub mark : ℕ → (ℕ → Bool) → ℕ → Bool
mark number dups m = m == number || dups m

-- The properties that may be repeated: `PropertyType::UserProp`, for most packets.
abbrev pub user_only : ℕ → Bool
user_only number = number == 38

-- A property that is there already, unless it may be repeated.
unfoldable pub check_dup : (ℕ → Bool) → Property → (ℕ → Bool) → Result (Unit {0})
unfolding PropertyType.to_u32 to_property_type
check_dup dup_ok property dups =
    let number = PropertyType.to_u32 (to_property_type property) in
    if not (dup_ok number) && dups number then err protocol else ok tt

module _ {P : Type 0} (dup_ok : ℕ → Bool) (set : P → Property → Result P) where
  -- `while n < limit`; `set` is the match on the property.
  unfoldable pub props_loop : ℕ → List ℕ → ℕ → ℕ → (ℕ → Bool) → P → Result (P × ℕ)
  unfolding dec_field Property.decode check_dup mark
  props_loop zero stream limit n dups props = panic
  props_loop (suc k) stream limit n dups props =
      if ltb n limit
      then (dec_field Property.decode stream n >>= λ (property, m).
          check_dup dup_ok property dups
          >> (set props property >>= λ props'.
              props_loop k stream limit m
                (mark (PropertyType.to_u32 (to_property_type property)) dups) props'))
      else ok (props, n)

  -- `decode` of a list of properties; each round reads one byte at least, so that the loop runs at
  -- most `limit` times.
  unfoldable pub decode_props : P → Decoder P
  unfolding props_loop
  decode_props default stream = do
    (len, n) ← dec_field VarU32.decode stream 0
    props_loop (len + n + 1) stream (len + n) n (λ m. false) default

-- The macro `dec_props!`
unfoldable pub dec_props : {P : Type 0} → Decoder P → List ℕ → ℕ → Result (Option P × ℕ)
dec_props dec stream n = do
  rest ← advance stream n
  (p, m) ← VarU32.decode rest
  if p == 0
      then ok (none, n + m)
      else (dec rest >>= λ (properties, r).
          if r == m + p then ok (some properties, n + r) else err protocol)

-- `dec_field!` and `dec_props!` behind a condition.
unfoldable pub dec_field_if : {A : Type 0} → Bool → Decoder A → List ℕ → ℕ → Result (Option A × ℕ)
unfolding dec_field
dec_field_if true dec stream n = do (val, m) ← dec_field dec stream n; ok (some val, m)
dec_field_if false dec stream n = ok (none, n)

unfoldable pub dec_props_if : {P : Type 0} → Bool → Decoder P → List ℕ → ℕ → Result (Option P × ℕ)
unfolding dec_props
dec_props_if true dec stream n = dec_props dec stream n
dec_props_if false dec stream n = ok (none, n)

-- The macro `enc_prop!`, and `enc_prop!(opt: …)`, which extend `data`.
unfoldable pub put_prop :
    {A : Type 0} → PropertyType → (A → Result Blob) → A → List ℕ → Result (List ℕ)
unfolding enc_prop
put_prop prop_type enc val data_bytes = do
  bytes ← enc_prop prop_type enc val
  ok (data_bytes ++ bytes)

unfoldable pub put_opt :
    {A : Type 0} → PropertyType → (A → Result Blob) → Option A → List ℕ → Result (List ℕ)
unfolding put_prop
put_opt prop_type enc none data_bytes = ok data_bytes
put_opt prop_type enc (some val) data_bytes = put_prop prop_type enc val data_bytes

-- The loop over the properties of one type.
unfoldable pub put_all :
    {A : Type 0} → PropertyType → (A → Result Blob) → List A → List ℕ → Result (List ℕ)
unfolding put_prop
put_all prop_type enc [] data_bytes = ok data_bytes
put_all prop_type enc (val ∷ vals) data_bytes = do
  longer ← put_prop prop_type enc val data_bytes
  put_all prop_type enc vals longer

-- What `encode` of a list of properties does with `data` at its end.
unfoldable pub close_props : List ℕ → Result Blob
unfolding insert_property_len
close_props data_bytes = do buf ← insert_property_len (length data_bytes) data_bytes; ok (large buf)

-- `if let Some(properties)`, or a zero.
unfoldable pub enc_opt_props : {P : Type 0} → (P → Result Blob) → Option P → Result Blob
unfolding VarU32.encode
enc_opt_props enc none = VarU32.encode 0
enc_opt_props enc (some properties) = enc properties

-- `if let Some(val)`, its bytes.
unfoldable pub enc_opt : {A : Type 0} → (A → Result Blob) → Option A → Result (List ℕ)
unfolding as_ref
enc_opt enc none = ok []
enc_opt enc (some val) = do blob ← enc val; ok (as_ref blob)

-- The end of `encode` of a packet: the header that `make` builds goes in front of `data`.
unfoldable pub close_packet : (ℕ → Result FixedHeader) → List ℕ → Result Blob
unfolding to_u32 insert_fixed_header
close_packet make data_bytes = do
  remlen ← to_u32 (length data_bytes)
  fh ← make remlen
  whole ← insert_fixed_header fh data_bytes
  ok (large whole)
