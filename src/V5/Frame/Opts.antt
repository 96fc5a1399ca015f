-- ===== src/V5/Frame/Opts.antt =====
-- Fields that a packet may lack, by a condition that both sides know.
use mymq.Base.{
  ℕ, ◌+◌, Bool, true, false, List, [], ◌++◌, Option, none, some, length, ◌≡◌, refl, arith,
}
use mymq.Error.{Result, ok}
use mymq.Types.Blob.{Blob, as_ref, Decoder, Ahead, dec_field-Ahead}
use mymq.Types.Written.{Written}
use mymq.V5.Frame.{dec_field_if, dec_props_if, enc_opt, enc_opt_props}
use mymq.V5.Frame.Whole.{PropBytes, prop_field}

-- The bytes of a field, and how they are read when the condition is `there`.
pub record OptField {A : Type 0} (enc : A → Result Blob) (read : List ℕ → ℕ → Result (Option A × ℕ))
    (o : Option A) : Type 0 where
  pub bytes : List ℕ
  pub writes : enc_opt enc o ≡ ok bytes
  pub reads :
      (stream tail : List ℕ) (n : ℕ)
      → Ahead stream n (bytes ++ tail)
      → read stream n ≡ ok (o, n + length bytes)

-- A value is there exactly if the condition says so, and can be written.
abbrev pub IsField : {A : Type 0} → (A → Type 0) → Bool → Option A → Type 0
IsField P true none = ⊥
IsField P true (some v) = P v
IsField P false none = Unit
IsField P false (some v) = ⊥

pub opt_field :
    {A : Type 0} (enc : A → Result Blob) (dec : Decoder A) (there : Bool) (o : Option A)
    → IsField (Written enc dec) there o
    → OptField enc (dec_field_if there dec) o
opt_field enc dec true none h = absurd h
opt_field enc dec true (some v) w = record {
  bytes = as_ref w.blob;
  writes = unfold enc_opt in rw w.writes refl;
  reads = λ stream tail n a. unfold dec_field_if in rw (dec_field-Ahead tail w.reads a) refl;
}
opt_field enc dec false none h = record {
  bytes = [];
  writes = unfold enc_opt in refl;
  reads = λ stream tail n a. unfold dec_field_if in ground arith;
}
opt_field enc dec false (some v) h = absurd h

pub opt_props :
    {P : Type 0} (enc : P → Result Blob) (dec : Decoder P) (there : Bool) (o : Option P)
    → IsField (PropBytes enc dec) there o
    → OptField enc (dec_props_if there dec) o
opt_props enc dec true none h = absurd h
opt_props enc dec true (some props) pb =
    let f = prop_field (some props) pb in
    let e : enc props ≡ ok f.blob = unfold enc_opt_props in f.writes in
    record {
      bytes = as_ref f.blob;
      writes = unfold enc_opt in rw e refl;
      reads = λ stream tail n a. unfold dec_props_if in f.reads stream tail n a;
    }
opt_props enc dec false none h = record {
  bytes = [];
  writes = unfold enc_opt in refl;
  reads = λ stream tail n a. unfold dec_props_if in ground arith;
}
opt_props enc dec false (some props) h = absurd h

pub IsField-map :
    {A : Type 0} {P Q : A → Type 0}
    → ((v : A) → P v → Q v)
    → (there : Bool) (o : Option A) → IsField P there o
    → IsField Q there o
IsField-map step true none h = absurd h
IsField-map step true (some v) h = step v h
IsField-map step false none h = tt
IsField-map step false (some v) h = absurd h
