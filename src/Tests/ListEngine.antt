-- ===== src/Tests/ListEngine.antt =====
-- A database engine over lists, and the other parameters of the registry.
pub mod Sort
use distribution_rs.Prelude.{
  ℕ, zero, suc, ◌+◌, ◌≤◌, Bool, true, false, not, Option, none, some, List, [], ◌∷◌, ◌≡◌, inl, inr,
  refl, sym, ap, subst, arith, In, here, there, if◌then◌else◌, ltb, ◌==◌, Bool-cases, length,
  filter_by,
}
use distribution_rs.Tests.ListEngine.Sort.{
  text_before, text_before-Strict, sort, sort_iff, sort-Ascending,
}
use distribution_rs.Prelude.Text.{Text, len}
use distribution_rs.Registry.{Env, Hash, Json}
use distribution_rs.Storage.Files.{Bytes}
use distribution_rs.Types.Digest.RoundTrip.{AllHex}
use distribution_rs.Types.Ids.{Uuids}
use distribution_rs.Database.Engine.{TableOps, Engine, Updated, Upserted}

pub not-true : (b : Bool) → not b ≡ true → b ≡ false
not-true b h = ground arith

module _ {Row : Type 0} where
  abbrev pub one : (Row → Bool) → List Row → Option Row
  one p [] = none
  one p (r ∷ t) = let rest = one p t in if p r then some r else rest

  abbrev pub keep : (Row → Bool) → List Row → List Row
  keep = filter_by

  abbrev pub hits : (Row → Bool) → List Row → ℕ
  hits p [] = 0
  hits p (r ∷ t) = let rest = hits p t in if p r then suc rest else rest

  abbrev pub change : (Row → Bool) → (Row → Row) → List Row → List Row
  change p set [] = []
  change p set (r ∷ t) = (if p r then set r else r) ∷ change p set t

  abbrev pub insert_or_change :
      Option Row → (Row → Row → Bool) → (Row → Row → Row) → Row → List Row → List Row
  insert_or_change none same set new t = new ∷ t
  insert_or_change (some _) same set new t = change (same new) (set new) t

  pub one_sound :
      (p : Row → Bool) (t : List Row) (r : Row) → one p t ≡ some r → In r t × (p r ≡ true)
  one_sound p [] r h = cc
  one_sound p (x ∷ t) r h = elim (Bool-cases (p x)) [
    | inl hit ↦
        let e : x ≡ r = ground arith in
        (subst (λ y. In y (x ∷ t)) e here, subst (λ y. p y ≡ true) e hit)
    | inr miss ↦ let (at, q) = one_sound p t r (ground arith) in (there at, q)
  ]

  pub one_complete :
      (p : Row → Bool) (t : List Row) → one p t ≡ none → (r : Row) → In r t → p r ≡ false
  one_complete p [] h r bad = elim bad [ ]
  one_complete p (x ∷ t) h _ here = ground arith
  one_complete p (x ∷ t) h r (there at) = one_complete p t (ground arith) r at

  pub keep_sound :
      (p : Row → Bool) (t : List Row) (r : Row) → In r (keep p t) → In r t × (p r ≡ true)
  keep_sound p [] r at = elim at [ ]
  keep_sound p (x ∷ t) r at = go r (keep_sound p t r) (p x) refl at
    where
      go :
          (s : Row)
          → (In s (keep p t) → In s t × (p s ≡ true))
          → (b : Bool) → p x ≡ b
          → In s (if b then x ∷ keep p t else keep p t)
          → In s (x ∷ t) × (p s ≡ true)
      go _ k true e here = (here, e)
      go s k true e (there at) = let (a, q) = k at in (there a, q)
      go s k false e at = let (a, q) = k at in (there a, q)

  pub keep_complete :
      (p : Row → Bool) (t : List Row) (r : Row) → In r t → p r ≡ true → In r (keep p t)
  keep_complete p [] r bad e = elim bad [ ]
  keep_complete p (x ∷ t) _ here e =
      subst (λ b. In x (if b then x ∷ keep p t else keep p t)) (sym e) here
  keep_complete p (x ∷ t) r (there at) e = go (keep_complete p t r at e) (p x)
    where
      go : In r (keep p t) → (b : Bool) → In r (if b then x ∷ keep p t else keep p t)
      go k true = there k
      go k false = k

  pub hits_none : (p : Row → Bool) (t : List Row) → hits p t ≡ 0 → (r : Row) → In r t → p r ≡ false
  hits_none p [] h r bad = elim bad [ ]
  hits_none p (x ∷ t) h _ here = ground arith
  hits_none p (x ∷ t) h r (there at) = hits_none p t (ground arith) r at

  pub none_hits :
      (p : Row → Bool) (t : List Row) → ((r : Row) → In r t → p r ≡ false) → hits p t ≡ 0
  none_hits p [] h = refl
  none_hits p (x ∷ t) h = rw (h x here, none_hits p t (λ r at. h r (there at)))

  pub change_sound :
      (p : Row → Bool) (set : Row → Row) (t : List Row) (r : Row)
      → In r (change p set t)
      → Updated p set t r
  change_sound p set [] r at = elim at [ ]
  change_sound p set (x ∷ t) r at = go r (change_sound p set t r) (p x) refl at
    where
      deeper : (s : Row) → Updated p set t s → Updated p set (x ∷ t) s
      deeper s (inl (a, e)) = inl (there a, e)
      deeper s (inr (o, a, e, f)) = inr (o, there a, e, f)

      go :
          (s : Row)
          → (In s (change p set t) → Updated p set t s)
          → (b : Bool) → p x ≡ b
          → In s ((if b then set x else x) ∷ change p set t)
          → Updated p set (x ∷ t) s
      go _ k true e here = inr (x, here, e, refl)
      go _ k false e here = inl (here, e)
      go s k true e (there at) = deeper s (k at)
      go s k false e (there at) = deeper s (k at)

  change_kept :
      (p : Row → Bool) (set : Row → Row) (t : List Row) (r : Row)
      → In r t
      → p r ≡ false
      → In r (change p set t)
  change_kept p set [] r bad e = elim bad [ ]
  change_kept p set (x ∷ t) _ here e =
      subst (λ b. In x ((if b then set x else x) ∷ change p set t)) (sym e) here
  change_kept p set (x ∷ t) r (there at) e = there (change_kept p set t r at e)

  change_hit :
      (p : Row → Bool) (set : Row → Row) (t : List Row) (s : Row)
      → In s t
      → p s ≡ true
      → In (set s) (change p set t)
  change_hit p set [] s bad e = elim bad [ ]
  change_hit p set (x ∷ t) _ here e =
      subst (λ b. In (set x) ((if b then set x else x) ∷ change p set t)) (sym e) here
  change_hit p set (x ∷ t) s (there at) e = there (change_hit p set t s at e)

  pub change_complete :
      (p : Row → Bool) (set : Row → Row) (t : List Row) (r : Row)
      → Updated p set t r
      → In r (change p set t)
  change_complete p set t r (inl (at, e)) = change_kept p set t r at e
  change_complete p set t r (inr (s, at, e, same)) =
      subst (λ y. In y (change p set t)) (sym same) (change_hit p set t s at e)

  pub upsert_sound :
      (same : Row → Row → Bool) (set : Row → Row → Row) (new : Row) (t : List Row) (o : Option Row)
      (r : Row)
      → one (same new) t ≡ o
      → In r (insert_or_change o same set new t)
      → Upserted same set new t r
  upsert_sound same set new t none _ e here = inr (inr (one_complete (same new) t e, refl))
  upsert_sound same set new t none r e (there at) = inl (at, one_complete (same new) t e r at)
  upsert_sound same set new t (some s) r e at = elim (change_sound (same new) (set new) t r at) [
    | inl kept ↦ inl kept
    | inr hit ↦ inr (inl hit)
  ]

  pub upsert_complete :
      (same : Row → Row → Bool) (set : Row → Row → Row) (new : Row) (t : List Row) (o : Option Row)
      (r : Row)
      → one (same new) t ≡ o
      → Upserted same set new t r
      → In r (insert_or_change o same set new t)
  upsert_complete same set new t none r e (inl (at, _)) = there at
  upsert_complete same set new t none r e (inr (inl (s, at, hit, _))) =
      let miss : same new s ≡ false = one_complete (same new) t e s at in cc
  upsert_complete same set new t none r e (inr (inr (_, is))) =
      subst (λ y. In y (new ∷ t)) (sym is) here
  upsert_complete same set new t (some s) r e (inl kept) =
      change_complete (same new) (set new) t r (inl kept)
  upsert_complete same set new t (some s) r e (inr (inl hit)) =
      change_complete (same new) (set new) t r (inr hit)
  upsert_complete same set new t (some s) r e (inr (inr (none_there, _))) =
      let (at, hit) = one_sound (same new) t s e in
      let miss : same new s ≡ false = none_there s at in cc

  abbrev pub list_ops : TableOps Row
  list_ops = record {
    one = one;
    one_sound = one_sound;
    one_complete = one_complete;
    all = keep;
    all_iff = λ p t r. (keep_sound p t r, λ (at, e). keep_complete p t r at e);
    delete = λ p. keep (λ r. not (p r));
    delete_iff = λ p t r. (
      λ at. let (a, e) = keep_sound (λ r. not (p r)) t r at in (a, not-true (p r) e),
      λ (at, e). keep_complete (λ r. not (p r)) t r at (ap not e),
    );
    affected = hits;
    affected_iff = λ p t. (hits_none p t, none_hits p t);
    update = change;
    update_iff = λ p set t r. (change_sound p set t r, change_complete p set t r);
    upsert = λ same set new t. insert_or_change (one (same new) t) same set new t;
    upsert_iff = λ same set new t r.
        (upsert_sound same set new t _ r refl, upsert_complete same set new t _ r refl);
    ordered = λ key p t. sort key (keep p t);
    ordered_iff = λ key p t r. (
      λ at. keep_sound p t r ((sort_iff key r (keep p t)).0 at),
      λ (at, e). (sort_iff key r (keep p t)).1 (keep_complete p t r at e),
    );
  }

abbrev pub sum : List ℕ → ℕ
sum [] = 0
sum (n ∷ ns) = n + sum ns

In-sum : (n : ℕ) (ns : List ℕ) → In n ns → n ≤ sum ns
In-sum n [] at = elim at [ ]
In-sum n (_ ∷ ns) here = omega arith
In-sum n (m ∷ ns) (there at) = omega (arith, In-sum n ns at)

pub sum-fresh : (ns : List ℕ) → ¬ In (suc (sum ns)) ns
sum-fresh ns at = omega (arith, In-sum (suc (sum ns)) ns at)

abbrev pub list_engine : Engine
list_engine = record {
  table = λ Row. list_ops {Row = Row};
  next_id = λ ids. suc (sum ids);
  next_id_fresh = sum-fresh;
  before = text_before;
  before-Strict = text_before-Strict;
  ordered-Ascending = λ key p t h. sort-Ascending key (filter_by p t) h;
}

-- `n` times a character
abbrev pub pad : ℕ → ℕ → Text
pad zero c = []
pad (suc n) c = c ∷ pad n c

pub length-pad : (n c : ℕ) → length (pad n c) ≡ n
length-pad zero c = refl
length-pad (suc n) c = omega (arith, length-pad n c)

-- A UUID in unary.
abbrev pub unary : Uuids
unary = record {
  uuid_to_string = λ u. pad u b'u';
  parse_str = λ s. some (length s);
  parse_str-uuid_to_string = λ u. ap some (length-pad u b'u');
}

-- A hash that tells the empty bytes from others.
abbrev pub hash_char : Bytes → ℕ
hash_char [] = b'e'
hash_char (_ ∷ _) = b'a'

pub hash_len : (b : Bytes) → len (pad 64 (hash_char b)) ≡ 64
unfolding len
hash_len [] = refl
hash_len (_ ∷ _) = refl

pub hash_hex : (b : Bytes) → AllHex (pad 64 (hash_char b))
hash_hex [] = ground arith
hash_hex (_ ∷ _) = ground arith

abbrev pub toy_hash : Hash
toy_hash = record {
  sha256_hex = λ b. pad 64 (hash_char b);
  sha256_hex-len = hash_len;
  sha256_hex-AllHex = hash_hex;
}

abbrev pub no_json : Json
no_json = record {
  Value = Text;
  from_slice = λ b. some b;
  from_str = λ s. some s;
  null = [];
  get = λ k v. none;
  as_str = λ v. none;
  to_text = λ v. v;
  image_manifest = λ b. none;
  image_index = λ b. none;
}

abbrev pub env : Env
env = record { sql = list_engine; hash = toy_hash; uuids = unary; json = no_json }
