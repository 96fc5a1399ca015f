-- ===== src/Broker/Tries/Subscribed.antt =====
-- `SubscribedTrie` keeps the registry, whatever the sequence of its operations.
use mymq.Base.{
  Bool, true, false, List, [], ◌∷◌, ◌≡◌, ◌≢◌, refl, sym, ◌∙◌, if◌then◌else◌, inl, inr, Bool-cases,
  ◌==◌, arith,
}
use mymq.Error.{Result, ok, ◌>>=◌}
use mymq.Types.Utf8.{Str}
use mymq.Types.Topic.{iter_topic_path, push_front}
use mymq.Broker.TTrie.{Value, is_root}
use mymq.Broker.TTrie.Path.{values_at, IsTrie}
use mymq.Broker.TTrie.Path.Values.{IsOrdered, add_value}
use mymq.Broker.TTrie.Subscribe.{sub-Subscribed}
use mymq.Broker.TTrie.Unsubscribe.{removed}
use mymq.Broker.TTrie.Unsubscribe.Step.{unsub-Unsubscribed}
use mymq.Broker.Tries.{Inner, do_subscribe, do_unsubscribe, match_topic_name}
use mymq.Broker.Tries.Registry.{
  Registry, Op, subscribe, unsubscribe, match_name, update, path_eq, ne_of_path_eq, eq_of_path_eq,
  apply, apply_all, Legal, AllLegal,
}

-- A key has at least one level.
pub iter_topic_path-cons :
    (key : Str) → (level : Str) × (path : List Str) × (iter_topic_path key ≡ level ∷ path)
unfolding iter_topic_path
iter_topic_path-cons [] = ([], [], refl)
iter_topic_path-cons (c ∷ key) = go (iter_topic_path key) (c == b'/')
  where
    go :
        (rest : List Str) (b : Bool)
        → (level : Str) × (path : List Str) × ((if b then [] ∷ rest else push_front c rest)
            ≡ level ∷ path)
    go rest true = ([], rest, refl)
    go [] false = (c ∷ [], [], refl)
    go (l ∷ ls) false = (c ∷ l, ls, refl)

module _ {ℓ} {V : Type ℓ} ⦃o : Value V⦄ where
  unfoldable pub step : Op V → Inner V → Result (Inner V)
  step (subscribe key v) inner = do_subscribe key v inner
  step (unsubscribe key v) inner = do_unsubscribe key v inner
  step (match_name key) inner = ok (match_topic_name key inner).1

  unfoldable pub run : List (Op V) → Inner V → Result (Inner V)
  unfolding step
  run [] inner = ok inner
  run (op ∷ ops) inner = do next ← step op inner; run ops next

  -- The trie is well formed, under a root, and holds what the registry says.
  pub record Holds (inner : Inner V) (f : Registry V) : Type ℓ where
    pub trie : IsTrie inner.root
    pub rooted : is_root inner.root ≡ true
    pub same : (p : List Str) → values_at p inner.root ≡ f p

module _ {ℓ} {V : Type ℓ} ⦃o : Value V⦄ (l : IsOrdered o) where
  updated :
      (path : List Str) (values : List V) (f : Registry V) (before after : List Str → List V)
      → ((p : List Str) → before p ≡ f p)
      → after path ≡ values
      → ((p : List Str) → p ≢ path → after p ≡ before p)
      → (p : List Str) → after p ≡ update path values f p
  unfolding update
  updated path values f before after same here elsewhere p = elim (Bool-cases (path_eq p path)) [
    | inl e ↦ rw (e, eq_of_path_eq p path e) here
    | inr e ↦ rw e (elsewhere p (ne_of_path_eq p path e) ∙ same p)
  ]

  -- What one operation promises.
  abbrev pub Stepped : Op V → Inner V → Registry V → Type ℓ
  Stepped op inner f = (next : Inner V) × (step op inner ≡ ok next) × Holds next (apply op f)

  subscribe-Stepped :
      (key : Str) (v : V) (inner : Inner V) (f : Registry V)
      → Holds inner f
      → Stepped (subscribe key v) inner f
  subscribe-Stepped key v inner f h =
      let (level, path, e) = iter_topic_path-cons key in
      let s = sub-Subscribed l level path v inner.root h.trie in
      let next : (n : Inner V) × (do_subscribe key v inner ≡ ok n) × (n.root ≡ s.after) =
        unfold do_subscribe in rw (e, s.run) (_, refl, refl) in
      (
        next.0,
        unfold step in next.1,
        record {
          trie = rw next.2 s.trie;
          rooted = rw next.2 (s.kind ∙ h.rooted);
          same =
              unfold apply in
              rw (next.2, e)
                (updated (level ∷ path) (add_value v (f (level ∷ path))) f
                  (λ p. values_at p inner.root) (λ p. values_at p s.after) h.same
                  (s.here ∙ rw (h.same (level ∷ path)) refl) s.elsewhere);
        },
      )

  unsubscribe-Stepped :
      (key : Str) (v : V) (inner : Inner V) (f : Registry V)
      → Holds inner f
      → f (iter_topic_path key) ≢ []
      → Stepped (unsubscribe key v) inner f
  unsubscribe-Stepped key v inner f h ne =
      let (level, path, e) = iter_topic_path-cons key in
      let ne' : values_at (level ∷ path) inner.root ≢ [] =
        λ z. ne (rw e (sym (h.same (level ∷ path)) ∙ z)) in
      let s = unsub-Unsubscribed l level path v inner.root h.trie ne' in
      let (n, a) = s.root_stays h.rooted in
      let (trie, kind, name) = s.intact n a in
      let next : (m : Inner V) × (do_unsubscribe key v inner ≡ ok m) × (m.root ≡ n) =
        unfold do_unsubscribe in rw (e, s.run, a) (_, refl, refl) in
      (
        next.0,
        unfold step in next.1,
        record {
          trie = rw next.2 trie;
          rooted = rw next.2 (kind ∙ h.rooted);
          same =
              unfold apply in
              rw (next.2, e)
                (updated (level ∷ path) (removed v (f (level ∷ path))).0 f
                  (λ p. values_at p inner.root) (λ p. values_at p n) h.same
                  ((rw a at s.here) ∙ rw (h.same (level ∷ path)) refl)
                  (λ p q. rw a at (s.elsewhere p q)));
        },
      )

  match_topic_name-root :
      (key : Str) (inner : Inner V) → (match_topic_name key inner).1.root ≡ inner.root
  unfolding match_topic_name
  match_topic_name-root key inner = ground arith

  match_name-Stepped :
      (key : Str) (inner : Inner V) (f : Registry V)
      → Holds inner f
      → Stepped (match_name key) inner f
  match_name-Stepped key inner f h =
      let next = match_topic_name-root key inner in
      (
        (match_topic_name key inner).1,
        unfold step in refl,
        record {
          trie = rw next h.trie;
          rooted = rw next h.rooted;
          same = unfold apply in rw next h.same;
        },
      )

  pub step-Stepped :
      (op : Op V) (inner : Inner V) (f : Registry V)
      → Holds inner f
      → Legal op f
      → Stepped op inner f
  step-Stepped (subscribe key v) inner f h ok_op = subscribe-Stepped key v inner f h
  step-Stepped (unsubscribe key v) inner f h ok_op = unsubscribe-Stepped key v inner f h ok_op
  step-Stepped (match_name key) inner f h ok_op = match_name-Stepped key inner f h

  -- From a trie that holds a registry, any sequence of operations runs to the end and leaves the
  -- registry that those operations make, when each `unsubscribe` finds something stored under its
  -- filter.
  pub run-Holds :
      (ops : List (Op V)) (inner : Inner V) (f : Registry V)
      → Holds inner f
      → AllLegal ops f
      → (next : Inner V) × (run ops inner ≡ ok next) × Holds next (apply_all ops f)
  unfolding run apply_all AllLegal
  run-Holds [] inner f h al = (inner, refl, h)
  run-Holds (op ∷ ops) inner f h al =
      let (next, e, h') = step-Stepped op inner f h al.0 in
      let (end, e', h'') = run-Holds ops next (apply op f) h' al.1 in (end, rw e e', h'')
