-- ===== src/Cert/Rules.antt =====
-- What an action does: it ends, and this holds of its value and of the heap that it leaves. A rule for
-- each primitive, in terms of who owns the references.
use webcm.Common.{
  subst, ok-injective, ℕ, ◌+◌, ◌-◌, ◌≡◌, refl, sym, ◌∙◌, ap, Bool, true, false, if◌then◌else◌,
  Option, none, some, List, [], ◌∷◌, ok, inl, inr, ◌⊎◌, ne→==_false, arith,
}
use webcm.Cert.Heap.{
  Call, Env, Heap, Action, pure, ◌>>=◌, occurs, retain, fresh, free, free_some, ask, create, try,
  all_succeed,
}

pub record Runs {A : Type 0} (P : A → Heap → Type 0) (m : Action A) (h : Heap) : Type 0 where
  pub value : A
  pub after : Heap
  pub returns : m h ≡ ok (value, after)
  pub holds : P value after

pub Runs-pure : {A : Type 0} {P : A → Heap → Type 0} (a : A) (h : Heap) → P a h → Runs P (pure a) h
unfolding pure
Runs-pure a h p = record { value = a; after = h; returns = refl; holds = p }

pub Runs-bind :
    {A B : Type 0} {P : A → Heap → Type 0} {Q : B → Heap → Type 0} {m : Action A} {f : A → Action B}
    {h : Heap}
    → Runs P m h
    → ((a : A) (h' : Heap) → P a h' → Runs Q (f a) h')
    → Runs Q (m >>= f) h
unfolding ◌>>=◌
Runs-bind r k =
    let s = k r.value r.after r.holds in
    record { value = s.value; after = s.after; returns = rw r.returns s.returns; holds = s.holds }

pub Runs-mono :
    {A : Type 0} {P Q : A → Heap → Type 0} {m : Action A} {h : Heap}
    → Runs P m h
    → ((a : A) (h' : Heap) → P a h' → Q a h')
    → Runs Q m h
Runs-mono r k = record {
  value = r.value;
  after = r.after;
  returns = r.returns;
  holds = k r.value r.after r.holds;
}

pub Runs-if :
    {A : Type 0} {P : A → Heap → Type 0} {m n : Action A} {h : Heap} (b : Bool)
    → (b ≡ true → Runs P m h)
    → (b ≡ false → Runs P n h)
    → Runs P (if b then m else n) h
Runs-if true r s = r refl
Runs-if false r s = s refl

-- The same for an action that gives a pointer, and for one that says whether it succeeded.
option_case :
    {A B : Type 0} {Q : B → Heap → Type 0} (P : Option A → Heap → Type 0) (f : Option A → Action B)
    → ((h : Heap) → P none h → Runs Q (f none) h)
    → ((a : A) (h : Heap) → P (some a) h → Runs Q (f (some a)) h)
    → (o : Option A) (h : Heap) → P o h
    → Runs Q (f o) h
option_case P f s t none = s
option_case P f s t (some a) = t a

pub Runs-option :
    {A B : Type 0} {Q : B → Heap → Type 0} {h : Heap} {P : Option A → Heap → Type 0}
    {m : Action (Option A)} (f : Option A → Action B)
    → Runs P m h
    → ((h' : Heap) → P none h' → Runs Q (f none) h')
    → ((a : A) (h' : Heap) → P (some a) h' → Runs Q (f (some a)) h')
    → Runs Q (m >>= f) h
Runs-option {P = P} f r s t = Runs-bind r (option_case P f s t)

bool_case :
    {B : Type 0} {Q : B → Heap → Type 0} (P : Bool → Heap → Type 0) (f : Bool → Action B)
    → ((h : Heap) → P false h → Runs Q (f false) h)
    → ((h : Heap) → P true h → Runs Q (f true) h)
    → (o : Bool) (h : Heap) → P o h
    → Runs Q (f o) h
bool_case P f s t false = s
bool_case P f s t true = t

pub Runs-bool :
    {B : Type 0} {Q : B → Heap → Type 0} {h : Heap} {P : Bool → Heap → Type 0} {m : Action Bool}
    (f : Bool → Action B)
    → Runs P m h
    → ((h' : Heap) → P false h' → Runs Q (f false) h')
    → ((h' : Heap) → P true h' → Runs Q (f true) h')
    → Runs Q (m >>= f) h
Runs-bool {P = P} f r s t = Runs-bind r (bool_case P f s t)

pub Runs-as :
    {A : Type 0} {P : A → Heap → Type 0} {m n : Action A} {h : Heap}
    → m ≡ n
    → Runs P n h
    → Runs P m h
Runs-as {P = P} {h = h} e r = subst (λ a. Runs P a h) (sym e) r

-- What it ends with, if that is known.
pub Runs-returns :
    {A : Type 0} {P : A → Heap → Type 0} {m : Action A} {h h' : Heap} {a : A}
    → Runs P m h
    → m h ≡ ok (a, h')
    → P a h'
Runs-returns {P = P} r e = subst (λ p. P p.0 p.1) (ok-injective (sym r.returns ∙ e)) r.holds

pub impossible : {A : Type 0} {b : Bool} → b ≡ true → b ≡ false → A
impossible e f = absurd (cc)

-- The owners of an object hold all its references.
pub record Owns (f : ℕ → ℕ) (h : Heap) : Type 0 where
  pub owned : (k : ℕ) → h.refs k ≡ f k

pub occurs_self : (id : ℕ) → occurs id id ≡ 1
occurs_self id = ground arith

module _ {f : ℕ → ℕ} {h : Heap} where
  pub Owns-same : {g : ℕ → ℕ} → Owns f h → ((k : ℕ) → f k ≡ g k) → Owns g h
  Owns-same v e = record { owned = λ k. v.owned k ∙ e k }

  pub ask-Runs :
      (env : Env) (call : Call)
      → Owns f h
      → Runs (λ b h'. Owns f h' × (env.answers call h.asked ≡ b)) (ask env call) h
  unfolding ask
  ask-Runs env call v = record {
    value = env.answers call h.asked;
    after = record h { asked = h.asked + 1 };
    returns = refl;
    holds = (record { owned = v.owned }, refl);
  }

  pub fresh-Runs : Owns f h → Runs (λ id h'. Owns (λ k. occurs id k + f k) h') fresh h
  unfolding fresh
  fresh-Runs v = record {
    value = h.next;
    after = record h { next = h.next + 1; refs = λ k. h.refs k + occurs h.next k };
    returns = refl;
    holds = record { owned = λ k. omega (arith, v.owned k) };
  }

  pub retain-Runs :
      (id : ℕ) → Owns f h → Runs (λ u h'. Owns (λ k. occurs id k + f k) h') (retain id) h
  unfolding retain
  retain-Runs id v = record {
    value = tt;
    after = record h { refs = λ k. h.refs k + occurs id k };
    returns = refl;
    holds = record { owned = λ k. omega (arith, v.owned k) };
  }

  -- The owner of a reference can release it.
  pub free-Runs :
      {g : ℕ → ℕ} (id : ℕ)
      → Owns f h
      → ((k : ℕ) → f k ≡ occurs id k + g k)
      → Runs (λ u h'. Owns g h') (free id) h
  unfolding free
  free-Runs id v e = record {
    value = tt;
    after = record h { refs = λ k. h.refs k - occurs id k };
    returns = rw (ne→==_false (h.refs id) 0 (λ z. omega (arith, occurs_self id, e id, v.owned id)));
    holds = record { owned = λ k. omega (arith, v.owned k, e k) };
  }

abbrev pub occurs_some : Option ℕ → ℕ → ℕ
occurs_some none k = 0
occurs_some (some id) k = occurs id k

abbrev pub is_some : {A : Type 0} → Option A → Bool
is_some none = false
is_some (some a) = true

-- No call fails.
abbrev pub Succeeds : Env → Type 0
Succeeds env = (call : Call) (n : ℕ) → env.answers call n ≡ true

module _ {f : ℕ → ℕ} {h : Heap} where
  pub free_some-Runs :
      {g : ℕ → ℕ} (o : Option ℕ)
      → Owns f h
      → ((k : ℕ) → f k ≡ occurs_some o k + g k)
      → Runs (λ u h'. Owns g h') (free_some o) h
  unfolding free_some
  free_some-Runs none v e = Runs-pure tt h (Owns-same v (λ k. omega (arith, e k)))
  free_some-Runs (some id) v e = free-Runs id v e

  -- A pointer that is not null is owned; it is null exactly if the call fails.
  pub create-Runs :
      (env : Env) (call : Call)
      → Owns f h
      → Runs
          (λ o h'. Owns (λ k. occurs_some o k + f k) h' × (env.answers call h.asked ≡ is_some o))
          (create env call)
          h
  unfolding create
  create-Runs env call v = Runs-bind (ask-Runs env call v) (λ b h' w.
      Runs-if b (λ e. Runs-bind (fresh-Runs w.0) (λ id h'' x. Runs-pure (some id) h'' (x, w.1 ∙ e)))
        (λ e. Runs-pure none h' (Owns-same w.0 (λ k. omega arith), w.1 ∙ e)))

  pub try-Runs :
      {A : Type 0} (env : Env) (call : Call) (t : A → A) (a : A)
      → Owns f h
      → Runs
          (λ b h'. Owns f h' × ((b ≡ a) ⊎ (b ≡ t a)) × (Succeeds env → b ≡ t a))
          (try env call t a)
          h
  unfolding try
  try-Runs env call t a v = Runs-bind (ask-Runs env call v) (λ b h' w.
      Runs-pure (if b then t a else a) h'
        (w.0, either b, λ all. ap (λ c. if c then t a else a) (sym w.1 ∙ all call h.asked)))
    where
      either : (b : Bool) → ((if b then t a else a) ≡ a) ⊎ ((if b then t a else a) ≡ t a)
      either true = inr refl
      either false = inl refl

pub all_succeed-Runs :
    {f : ℕ → ℕ} (env : Env) (calls : List Call) (h : Heap)
    → Owns f h
    → Runs (λ b h'. Owns f h' × (Succeeds env → b ≡ true)) (all_succeed env calls) h
unfolding all_succeed
all_succeed-Runs env [] h v = Runs-pure true h (v, λ all. refl)
all_succeed-Runs env (call ∷ calls) h v = Runs-bind (ask-Runs env call v) (λ b h' w.
    Runs-if b (λ e. all_succeed-Runs env calls h' w.0)
      (λ e. Runs-pure false h' (w.0, λ all. cc (all call h.asked))))
