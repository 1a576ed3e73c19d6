-- ===== src/Cert/Serving/Cache.antt =====
-- The cache of the certificate store as a map from names, and the memo that it implements.
use webcm.Common.{
  ℕ, ◌+◌, ◌≡◌, inl, inr, refl, sym, ◌∙◌, ap, subst, fun_ext, List, [], ◌∷◌, Bool, true, false,
  if◌then◌else◌, Bool-cases, Option, none, some, some-injective, arith,
}
use webcm.Cert.Heap.{Env}
use webcm.Cert.Objects.{Certificate, X509, Key, CertPair, CertStore}
use webcm.Cert.Authority.{held_pair, cached}
use webcm.Cert.Store.{text_eq, find_cert, put_cert}
use webcm.Cert.Serving.{IsFor, IsCached}

-- A pair of a copy of this certificate, and this key.
abbrev pub copied : X509 → Key → ℕ → CertPair
copied cert key id = record {
  cert = some (record { id = id; content = cert.content });
  key = some key;
}

abbrev pub held_some : Option CertPair → ℕ → ℕ
held_some none k = 0
held_some (some pair) k = held_pair pair k

-- The map in the list.
pub text_eq_refl : (t : List ℕ) → text_eq t t ≡ true
text_eq_refl [] = refl
text_eq_refl (c ∷ cs) = ground (arith, text_eq_refl cs)

pub text_eq→≡ : (t u : List ℕ) → text_eq t u ≡ true → t ≡ u
text_eq→≡ [] [] e = refl
text_eq→≡ [] (d ∷ ds) e = absurd (cc e)
text_eq→≡ (c ∷ cs) [] e = absurd (cc e)
text_eq→≡ (c ∷ cs) (d ∷ ds) e = grind (arith, text_eq→≡ cs ds)

module _ (hostname : List ℕ) where
  pub cached_put :
      (pair : CertPair) (cache : List (List ℕ × CertPair)) (k : ℕ)
      → cached (put_cert hostname pair cache) k + held_some (find_cert hostname cache) k
        ≡ held_pair pair k + cached cache k
  unfolding put_cert find_cert
  cached_put pair [] k = omega arith
  cached_put pair ((name, old) ∷ cache) k = elim (Bool-cases (text_eq name hostname)) [
    | inl e ↦ rw e (omega arith)
    | inr e ↦ rw e (omega (arith, cached_put pair cache k))
  ]

  text_eq_trans :
      (name other : List ℕ)
      → text_eq name hostname ≡ false
      → text_eq name other ≡ true
      → text_eq hostname other ≡ false
  text_eq_trans name other e e' = elim (Bool-cases (text_eq hostname other)) [
    | inl same ↦ absurd (
        cc (
          e,
          subst (λ t. text_eq name t ≡ true)
              (text_eq→≡ name other e' ∙ sym (text_eq→≡ hostname other same)) (text_eq_refl name),
        ))
    | inr differ ↦ differ
  ]

  find_put :
      (pair : CertPair) (cache : List (List ℕ × CertPair)) (other : List ℕ)
      → find_cert other (put_cert hostname pair cache)
        ≡ (if text_eq hostname other then some pair else find_cert other cache)
  unfolding put_cert find_cert
  find_put pair [] other = refl
  find_put pair ((name, old) ∷ cache) other = elim (Bool-cases (text_eq name hostname)) [
    | inl e ↦ rw (e, text_eq→≡ name hostname e) (ground arith)
    | inr e ↦ elim (Bool-cases (text_eq name other)) [
      | inl e' ↦ rw (e, e', text_eq_trans name other e e')
      | inr e' ↦ rw (e, e') (find_put pair cache other)
    ]
  ]

  module _ (env : Env) (ca : X509) (ca_key : Key) where
    pub find_cert-IsFor :
        (cache : List (List ℕ × CertPair)) (pair : CertPair)
        → IsCached env ca ca_key cache
        → find_cert hostname cache ≡ some pair
        → IsFor env ca ca_key hostname pair
    unfolding find_cert
    find_cert-IsFor [] pair v = λ e. absurd (cc e)
    find_cert-IsFor ((name, old) ∷ cache) pair v = elim (Bool-cases (text_eq name hostname)) [
      | inl e ↦ rw e (λ (e' : some old ≡ some pair).
          subst (λ p. IsFor env ca ca_key hostname p) (some-injective old pair e')
            (subst (λ t. IsFor env ca ca_key t old) (text_eq→≡ name hostname e) v.0))
      | inr e ↦ rw e (find_cert-IsFor cache pair v.1)
    ]

    pub put_cert-IsCached :
        (pair : CertPair) (cache : List (List ℕ × CertPair))
        → IsFor env ca ca_key hostname pair
        → IsCached env ca ca_key cache
        → IsCached env ca ca_key (put_cert hostname pair cache)
    unfolding put_cert
    put_cert-IsCached pair [] new v = (new, tt)
    put_cert-IsCached pair ((name, old) ∷ cache) new v = elim (Bool-cases (text_eq name hostname)) [
      | inl e ↦
          rw e (subst (λ t. IsFor env ca ca_key t pair) (sym (text_eq→≡ name hostname e)) new, v.1)
      | inr e ↦ rw e (v.0, put_cert-IsCached pair cache new v.1)
    ]

-- What a client sees of a pair: the certificate and the key, not which objects they are.
abbrev both : Option X509 → Option Key → Option (Certificate × ℕ)
both none key = none
both (some cert) none = none
both (some cert) (some key) = some (cert.content, key.secret)

abbrev pub answer : CertPair → Option (Certificate × ℕ)
answer pair = both pair.cert pair.key

abbrev pub answer_some : Option CertPair → Option (Certificate × ℕ)
answer_some none = none
answer_some (some pair) = answer pair

abbrev pub View : Type 0
View = List ℕ → Option (Certificate × ℕ)

abbrev pub view : CertStore → View
view store name = answer_some (find_cert name store.cert_cache)

-- A memo for names: it answers what it knows; or an answer is made, as it should be for this name, and
-- kept or not; or there is none.
pub data Memo (P : Certificate × ℕ → Type 0) (hostname : List ℕ)
    : View → Option (Certificate × ℕ) → View → Type 0 where
  known : (v : View) (a : Certificate × ℕ) → v hostname ≡ some a → Memo P hostname v (some a) v
  kept :
      (v : View) (a : Certificate × ℕ)
      → P a
      → Memo P hostname v (some a) (λ name. if text_eq hostname name then some a else v name)
  not_kept : (v : View) (a : Certificate × ℕ) → P a → Memo P hostname v (some a) v
  failed : (v : View) → Memo P hostname v none v

pub view_put :
    (hostname : List ℕ) (pair : CertPair) (store : CertStore)
    → view (record store { cert_cache = put_cert hostname pair store.cert_cache })
      ≡ (λ name. if text_eq hostname name then answer pair else view store name)
view_put hostname pair store = fun_ext λ name.
    ap answer_some (find_put hostname pair store.cert_cache name)
    ∙ pushed (text_eq hostname name) (find_cert name store.cert_cache)
  where
    pushed :
        (b : Bool) (o : Option CertPair)
        → answer_some (if b then some pair else o) ≡ (if b then answer pair else answer_some o)
    pushed true o = refl
    pushed false o = refl
