-- ===== src/Types/Topic.antt =====
-- `TopicName` and `TopicFilter` of types.rs
pub mod Validate
use mymq.Base.{
  ℕ, ◌+◌, List, [], ◌∷◌, length, ltb, Bool, true, false, ◌||◌, ◌&&◌, not, if◌then◌else◌, ◌==◌,
}
use mymq.Error.{Result, ok, err, malformed, ◌>>=◌, ◌>>◌}
use mymq.Types.Blob.{Blob, Decoder}
use mymq.Types.Utf8.{Str, utf8}
use mymq.Types.Text.{decode_string, encode_string}

abbrev pub TopicName : Type 0
TopicName = Str

abbrev pub TopicFilter : Type 0
TopicFilter = Str

-- `s.chars().any(…)`
unfoldable pub any : (ℕ → Bool) → Str → Bool
any p [] = false
any p (c ∷ s) = p c || any p s

-- Put a character on the front of the first piece.
abbrev pub push_front : ℕ → List Str → List Str
push_front c [] = (c ∷ []) ∷ []
push_front c (l ∷ ls) = (c ∷ l) ∷ ls

-- `iter_topic_path`: `self.split('/')`, which yields one piece at least.
unfoldable pub iter_topic_path : Str → List Str
iter_topic_path [] = [] ∷ []
iter_topic_path (c ∷ s) =
    let rest = iter_topic_path s in if c == b'/' then [] ∷ rest else push_front c rest

abbrev pub is_wildcard : ℕ → Bool
is_wildcard c = c == b'#' || c == b'+'

unfoldable pub validate_name : TopicName → Result (Unit {0})
validate_name s =
    if length (utf8 s) == 0
    then err malformed
    else if any (λ c. c == b'#' || c == b'+' || c == 0) s
    then err malformed
    else ok tt

-- `levels.filter(|l| l.len() > 1).any(…)`
unfoldable pub any_mixed : List Str → Bool
unfolding any
any_mixed [] = false
any_mixed (l ∷ ls) = (ltb 1 (length (utf8 l)) && any is_wildcard l) || any_mixed ls

unfoldable pub is_multi : Str → Bool
is_multi (c ∷ []) = c == b'#'
is_multi _ = false

-- `levels.skip_while(|l| l != &"#")`
unfoldable pub skip_to_multi : List Str → List Str
unfolding is_multi
skip_to_multi [] = []
skip_to_multi (l ∷ ls) = let rest = skip_to_multi ls in if is_multi l then l ∷ ls else rest

-- `iter.next(); iter.next().is_some()`
abbrev pub has_second : List Str → Bool
has_second (a ∷ b ∷ ls) = true
has_second _ = false

unfoldable pub validate_filter : TopicFilter → Result (Unit {0})
validate_filter s =
    if length (utf8 s) == 0
    then err malformed
    else if any (λ c. c == 0) s
    then err malformed
    else (let levels = iter_topic_path s in
        if any_mixed levels
        then err malformed
        else if has_second (skip_to_multi levels)
        then err malformed
        else ok tt)

unfoldable pub decode_name : Decoder TopicName
decode_name stream = do (val, n) ← decode_string stream; validate_name val; ok (val, n)

unfoldable pub encode_name : TopicName → Result Blob
encode_name s = do validate_name s; encode_string s

unfoldable pub decode_filter : Decoder TopicFilter
decode_filter stream = do (val, n) ← decode_string stream; validate_filter val; ok (val, n)

unfoldable pub encode_filter : TopicFilter → Result Blob
encode_filter s = do validate_filter s; encode_string s
