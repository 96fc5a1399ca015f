-- ===== src/Types/Topic/Validate.antt =====
-- What the validation of topic names and filters accepts.
use mymq.Base.{
  ℕ, ◌<◌, List, [], ◌∷◌, ◌++◌, length, ltb, Bool, true, false, ◌||◌, ◌&&◌, not, ◌==◌, ◌≡◌, ◌≢◌, ◌↔◌,
  ◌⊎◌, inl, inr, refl, arith, All, Bool-cases, length-append,
}
use mymq.Error.{ok, err, malformed}
use mymq.Types.Utf8.{Str, utf8, utf8_char}
use mymq.Types.Topic.{
  any, any_mixed, push_front, is_wildcard, is_multi, skip_to_multi, has_second, iter_topic_path,
  validate_name, validate_filter,
}

abbrev multi : Str
multi = b'#' ∷ []

abbrev single : Str
single = b'+' ∷ []

-- A level of a filter that may stand anywhere: a single-level wildcard, or free of wildcards.
abbrev pub IsInner : Str → Type 0
IsInner l = (l ≡ single) ⊎ (any is_wildcard l ≡ false)

-- The levels of a well-formed filter: `#` stands alone in its level, and last.
abbrev pub IsLevels : List Str → Type 0
IsLevels [] = Unit
IsLevels (l ∷ []) = (l ≡ multi) ⊎ IsInner l
IsLevels (l ∷ m ∷ ls) = IsInner l × IsLevels (m ∷ ls)

level_ok : Str → Bool
level_ok l = not (ltb 1 (length (utf8 l)) && any is_wildcard l)

utf8_pos : (c : ℕ) → 0 < length (utf8_char c)
unfolding utf8_char
utf8_pos c = ground arith

long : (c d : ℕ) (s : Str) → ltb 1 (length (utf8 (c ∷ d ∷ s))) ≡ true
unfolding utf8
long c d s = ground (
  arith,
  utf8_pos c,
  utf8_pos d,
  length-append (utf8_char c) (utf8_char d ++ utf8 s),
  length-append (utf8_char d) (utf8 s),
)

-- the three shapes of a level that passes
level_cases :
    (l : Str)
    → level_ok l ≡ true
    → ((l ≡ multi) × (is_multi l ≡ true)) ⊎ (IsInner l × (is_multi l ≡ false))
unfolding level_ok is_multi any
level_cases [] h = inr (inr refl, refl)
level_cases (c ∷ []) h = elim (Bool-cases (c == b'#')) [
  | inl e ↦ inl (ground (arith), e)
  | inr e ↦ inr (ground arith, e)
]
level_cases (c ∷ d ∷ s) h = inr (inr (ground (arith, long c d s)), refl)

any_mixed-All : (ls : List Str) → any_mixed ls ≡ false → All (λ l. level_ok l ≡ true) ls
unfolding any_mixed level_ok
any_mixed-All [] h = tt
any_mixed-All (l ∷ ls) h = (ground arith, any_mixed-All ls (ground arith))

inner_ok : (l : Str) → IsInner l → (level_ok l ≡ true) × (is_multi l ≡ false)
unfolding level_ok is_multi any utf8 utf8_char
inner_ok [] h = (refl, refl)
inner_ok (c ∷ []) h = ground arith
inner_ok (c ∷ d ∷ s) h = ground arith

-- the two tests on the levels together
levels_ok : List Str → Bool
levels_ok ls = not (any_mixed ls) && not (has_second (skip_to_multi ls))

first_ok : (l : Str) (ls : List Str) → levels_ok (l ∷ ls) ≡ true → level_ok l ≡ true
unfolding levels_ok level_ok any_mixed
first_ok l ls h = ground arith

levels_ok-IsLevels : (ls : List Str) → levels_ok ls ≡ true → IsLevels ls
unfolding levels_ok any_mixed skip_to_multi
levels_ok-IsLevels [] h = tt
levels_ok-IsLevels (l ∷ []) h = elim (level_cases l (first_ok l [] h)) [
  | inl (e, _) ↦ inl e
  | inr (e, _) ↦ inr e
]
levels_ok-IsLevels (l ∷ m ∷ ls) h = elim (level_cases l (first_ok l (m ∷ ls) h)) [
  | inl (_, e) ↦ absurd (ground arith)
  | inr (inner, e) ↦ (inner, levels_ok-IsLevels (m ∷ ls) (ground arith))
]

multi_ok : levels_ok (multi ∷ []) ≡ true
unfolding levels_ok any_mixed skip_to_multi utf8 utf8_char any
multi_ok = refl

IsLevels-levels_ok : (ls : List Str) → IsLevels ls → levels_ok ls ≡ true
unfolding levels_ok any_mixed skip_to_multi level_ok
IsLevels-levels_ok [] h = refl
IsLevels-levels_ok (l ∷ []) (inl e) = rw e multi_ok
IsLevels-levels_ok (l ∷ []) (inr e) = ground (arith, inner_ok l e)
IsLevels-levels_ok (l ∷ m ∷ ls) h = ground (arith, inner_ok l h.0, IsLevels-levels_ok (m ∷ ls) h.1)

utf8_zero : (s : Str) → (length (utf8 s) ≡ 0) ↔ (s ≡ [])
unfolding utf8
utf8_zero [] = (λ _. refl, λ _. refl)
utf8_zero (c ∷ s) =
    (λ e. absurd (omega (arith, utf8_pos c, length-append (utf8_char c) (utf8 s))), λ e. cc)

-- A topic filter is accepted exactly if it is not empty, has no NUL, and each of its levels is free
-- of wildcards, or is `+`, or is `#` and the last; any other is a malformed packet.
pub validate_filter_lem :
    (s : Str)
    → ((validate_filter s ≡ ok tt)
        ↔ ((s ≢ []) × (any (λ c. c == 0) s ≡ false) × IsLevels (iter_topic_path s)))
      × ((validate_filter s ≡ ok tt) ⊎ (validate_filter s ≡ err malformed))
validate_filter_lem [] = (
  (λ h. unfold validate_filter utf8 in cc, λ h. absurd (h.0 refl)),
  inr (unfold validate_filter utf8 in refl),
)
validate_filter_lem (c ∷ s) =
    let ne : length (utf8 (c ∷ s)) ≢ 0 = λ e. cc ((utf8_zero (c ∷ s)).0 e) in
    let f = c ∷ s in
    (
      (
        λ h. (
          λ e. cc,
          unfold validate_filter in ground arith,
          levels_ok-IsLevels (iter_topic_path f) (unfold validate_filter levels_ok in ground arith),
        ),
        λ h.
            let l = IsLevels-levels_ok (iter_topic_path f) h.2 in
            unfold validate_filter levels_ok in ground arith,
      ),
      unfold validate_filter in ground arith,
    )

-- A character of a topic name is no wildcard.
abbrev pub IsPlainChar : ℕ → Type 0
IsPlainChar c = (c ≢ b'#') × (c ≢ b'+')

abbrev name_char : ℕ → Bool
name_char c = c == b'#' || c == b'+' || c == 0

abbrev AllPlain : List Str → Type 0
AllPlain ls = All (λ l. All IsPlainChar l) ls

any-All : (s : Str) → (any is_wildcard s ≡ false) ↔ All IsPlainChar s
unfolding any
any-All [] = (λ h. tt, λ h. refl)
any-All (c ∷ s) = (
  λ h. (ground arith, (any-All s).0 (ground arith)),
  λ h. let rest = (any-All s).1 h.1 in let here = h.0 in ground arith,
)

-- the bad characters are the wildcards and NUL
any-name_char : (s : Str) → any name_char s ≡ (any is_wildcard s || any (λ c. c == 0) s)
unfolding any
any-name_char [] = refl
any-name_char (c ∷ s) = ground (arith, any-name_char s)

push_front-AllPlain :
    (c : ℕ) (s : Str) (rest : List Str)
    → All IsPlainChar s ↔ AllPlain rest
    → All IsPlainChar (c ∷ s) ↔ AllPlain (push_front c rest)
push_front-AllPlain c s [] h = (λ a. ((a.0, tt), tt), λ a. (a.0.0, h.1 tt))
push_front-AllPlain c s (l ∷ ls) h =
    (λ a. let (first, others) = h.0 a.1 in ((a.0, first), others), λ a. (a.0.0, h.1 (a.0.1, a.1)))

-- `/` is no wildcard, so that a string has one exactly if a level of it has one.
levels-AllPlain : (s : Str) → All IsPlainChar s ↔ AllPlain (iter_topic_path s)
unfolding iter_topic_path
levels-AllPlain [] = (λ h. (tt, tt), λ h. tt)
levels-AllPlain (c ∷ s) = elim (Bool-cases (c == b'/')) [
  | inl e ↦ rw e (
    λ a. (tt, (levels-AllPlain s).0 a.1),
    λ a. ((ground arith, ground arith), (levels-AllPlain s).1 a.1),
  )
  | inr e ↦ rw e (push_front-AllPlain c s (iter_topic_path s) (levels-AllPlain s))
]

AllPlain-IsLevels : (ls : List Str) → AllPlain ls → IsLevels ls
AllPlain-IsLevels [] h = tt
AllPlain-IsLevels (l ∷ []) h = inr (inr ((any-All l).1 h.0))
AllPlain-IsLevels (l ∷ m ∷ ls) h = (inr ((any-All l).1 h.0), AllPlain-IsLevels (m ∷ ls) h.1)

name_passes : (s : Str) → (validate_name s ≡ ok tt) ↔ ((s ≢ []) × (any name_char s ≡ false))
name_passes [] = (λ h. unfold validate_name utf8 in cc, λ h. absurd (h.0 refl))
name_passes (c ∷ s) =
    let ne : length (utf8 (c ∷ s)) ≢ 0 = λ e. cc ((utf8_zero (c ∷ s)).0 e) in
    (
      λ h. (λ e. cc, unfold validate_name in ground arith),
      λ h. unfold validate_name in ground arith,
    )

-- A topic name is accepted exactly if it is accepted as a topic filter and no level of it has a
-- `#` or a `+`; any other is a malformed packet.
pub validate_name_lem :
    (s : Str)
    → ((validate_name s ≡ ok tt)
        ↔ ((validate_filter s ≡ ok tt) × All (λ l. All IsPlainChar l) (iter_topic_path s)))
      × ((validate_name s ≡ ok tt) ⊎ (validate_name s ≡ err malformed))
validate_name_lem s = (
  (
    λ h.
        let (ne, clean) = (name_passes s).0 h in
        let split = any-name_char s in
        let plain = (levels-AllPlain s).0 ((any-All s).0 (ground arith)) in
        let levels = AllPlain-IsLevels (iter_topic_path s) plain in
        ((validate_filter_lem s).0.1 (ne, ground arith, levels), plain),
    λ h.
        let (ne, no_nul, levels) = (validate_filter_lem s).0.0 h.0 in
        let clean = (any-All s).1 ((levels-AllPlain s).1 h.1) in
        let split = any-name_char s in (name_passes s).1 (ne, ground arith),
  ),
  unfold validate_name in ground arith,
)
