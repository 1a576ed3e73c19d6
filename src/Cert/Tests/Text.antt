-- ===== src/Cert/Tests/Text.antt =====
-- A text for certificates and keys, in which the tests write them: numbers, with the length before a list.
use webcm.Common.{ℕ, zero, suc, ◌≡◌, refl, ap, List, [], ◌∷◌, length, Option, none, some}
use webcm.Cert.Objects.{
  Name, Extension, basic_constraints, key_usage, subject_alt_name, Certificate,
}
use webcm.Cert.Disk.{Pem, PemLaws}

-- How a value is put before a text, and taken from it again.
record Text (A : Type 0) : Type 0 where
  put : A → List ℕ → List ℕ
  take : List ℕ → Option (A × List ℕ)
  take-put : (a : A) (rest : List ℕ) → take (put a rest) ≡ some (a, rest)

abbrev then_take : {A B : Type 0} → Option (A × List ℕ) → (A → List ℕ → Option B) → Option B
then_take none f = none
then_take (some (a, rest)) f = f a rest

abbrev take_number : List ℕ → Option (ℕ × List ℕ)
take_number [] = none
take_number (n ∷ rest) = some (n, rest)

abbrev number : Text ℕ
number = record { put = λ n rest. n ∷ rest; take = take_number; take-put = λ n rest. refl }

module _ {A : Type 0} (item : Text A) where
  abbrev put_items : List A → List ℕ → List ℕ
  put_items [] rest = rest
  put_items (a ∷ xs) rest = item.put a (put_items xs rest)

  abbrev take_items : ℕ → List ℕ → Option (List A × List ℕ)
  take_items zero text = some ([], text)
  take_items (suc n) text =
      then_take (item.take text)
        λ a text'. then_take (take_items n text') λ xs rest. some (a ∷ xs, rest)

  take-put_items :
      (xs : List A) (rest : List ℕ) → take_items (length xs) (put_items xs rest) ≡ some (xs, rest)
  take-put_items [] rest = refl
  take-put_items (a ∷ xs) rest = rw (item.take-put a (put_items xs rest), take-put_items xs rest)

  abbrev items : Text (List A)
  items = record {
    put = λ xs rest. length xs ∷ put_items xs rest;
    take = λ text. then_take (take_number text) take_items;
    take-put = take-put_items;
  }

module _ {A B : Type 0} (first : Text A) (second : Text B) where
  abbrev pair : Text (A × B)
  pair = record {
    put = λ p rest. first.put p.0 (second.put p.1 rest);
    take = λ text.
        then_take (first.take text)
          λ a text'. then_take (second.take text') λ b rest. some ((a, b), rest);
    take-put = λ p rest. rw (first.take-put p.0 (second.put p.1 rest), second.take-put p.1 rest);
  }

-- A text for what can be written xs something else.
module _ {A B : Type 0} (text : Text B) (to : A → B) (from : B → A)
    (from-to : (a : A) → from (to a) ≡ a) where
  abbrev mapped : Text A
  mapped = record {
    put = λ a rest. text.put (to a) rest;
    take = λ t. then_take (text.take t) λ b rest. some (from b, rest);
    take-put = λ a rest. rw (text.take-put (to a) rest, from-to a);
  }

abbrev of_option : Option ℕ → List ℕ
of_option none = []
of_option (some n) = n ∷ []

abbrev to_option : List ℕ → Option ℕ
to_option [] = none
to_option (n ∷ ns) = some n

option_lem : (o : Option ℕ) → to_option (of_option o) ≡ o
option_lem none = refl
option_lem (some n) = refl

abbrev of_extension : Extension → ℕ × List (List ℕ)
of_extension basic_constraints = (0, [])
of_extension key_usage = (1, [])
of_extension (subject_alt_name names) = (2, names)

abbrev to_extension : ℕ × List (List ℕ) → Extension
to_extension (zero, names) = basic_constraints
to_extension (suc zero, names) = key_usage
to_extension (suc (suc n), names) = subject_alt_name names

extension_lem : (e : Extension) → to_extension (of_extension e) ≡ e
extension_lem basic_constraints = refl
extension_lem key_usage = refl
extension_lem (subject_alt_name names) = refl

abbrev name : Text Name
name = items (pair (items number) (items number))

abbrev optional : Text (Option ℕ)
optional = mapped (items number) of_option to_option option_lem

abbrev extensions : Text (List Extension)
extensions =
    items (mapped (pair number (items (items number))) of_extension to_extension extension_lem)

abbrev Fields : Type 0
Fields = (((ℕ × ℕ) × (ℕ × ℕ)) × (Name × Name)) × (Option ℕ × (List Extension × Option ℕ))

abbrev of_certificate : Certificate → Fields
of_certificate c = (
  (((c.version, c.serial), (c.not_before, c.not_after)), (c.subject, c.issuer)),
  (c.public_key, (c.extensions, c.signed_by)),
)

abbrev to_certificate : Fields → Certificate
to_certificate f = record {
  version = f.0.0.0.0;
  serial = f.0.0.0.1;
  not_before = f.0.0.1.0;
  not_after = f.0.0.1.1;
  subject = f.0.1.0;
  issuer = f.0.1.1;
  public_key = f.1.0;
  extensions = f.1.1.0;
  signed_by = f.1.1.1;
}

abbrev certificate : Text Certificate
certificate =
    mapped
      (pair (pair (pair (pair number number) (pair number number)) (pair name name))
        (pair optional (pair extensions optional)))
      of_certificate to_certificate (λ c. refl)

abbrev whole : {A : Type 0} → Option (A × List ℕ) → Option A
whole none = none
whole (some (a, rest)) = some a

pub plain_pem : Pem
plain_pem = record {
  write_cert = λ c. certificate.put c [];
  read_cert = λ text. whole (certificate.take text);
  write_key = λ secret. secret ∷ [];
  read_key = λ text. whole (take_number text);
}

pub plain_laws : PemLaws plain_pem
unfolding plain_pem
plain_laws = record {
  read-write_cert = λ c. ap whole (certificate.take-put c []);
  read-write_key = λ secret. refl;
}
