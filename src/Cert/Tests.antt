-- ===== src/Cert/Tests.antt =====
-- Runs of the certificate store: on a machine with no files, where every call succeeds.
mod Text
mod Serve
use webcm.Common.{
  ℕ, arith, ◌∙◌, ap, ◌+◌, ◌≡◌, ◌⊎◌, inl, inr, refl, List, [], ◌∷◌, Bool, true, false, if◌then◌else◌,
  Option, none, some, Outcome, ok, stuck,
}
use webcm.Cert.Heap.{Call, sk_general_name_push, Env, Heap, occurs, Action, ◌>>=◌}
use webcm.Cert.Rules.{Owns, Succeeds}
use webcm.Cert.Objects.{Certificate, X509, Key, CertPair, no_pair, CertStore, new_store}
use webcm.Cert.Create.{create_ca, create_cert_for_host, alt_name}
use webcm.Cert.Authority.{held_pair, held, IsCreated, create_ca_lem, ca_certificate}
use webcm.Cert.Leaf.Issued.{IsAnswer, create_cert_for_host_lem}
use webcm.Cert.Leaf.Unpushed.{alt_name_leak}
use webcm.Cert.Paths.{
  FilePath, ca_dir, ca_cert_path, ca_key_path, trust_store_path, cert_pem_path, Node, file,
  directory, Disk, path_eq, content,
}
use webcm.Cert.Disk.{Pem, PemLaws}
use webcm.Cert.Trust.{up_to_date}
use webcm.Cert.Files.Plain.{IsPlain, Flushes}
use webcm.Cert.Store.{ensure_ca, issue_for_host}
use webcm.Cert.Serving.{IsFor, Serves, HasCa, IsStored, IsIdle, new_store-IsIdle}
use webcm.Cert.Serving.Cache.{answer, view, Memo}
use webcm.Cert.Serving.Ensured.{ensure_ca_lem, ensure_ca-ensure_ca}
use webcm.Cert.Serving.Issue.{IsGood}
use webcm.Cert.Serving.Promises.{issue_for_host_lem, issue_for_host-Memo, issue_for_host-stuck}
use webcm.Cert.Tests.Text.{plain_pem, plain_laws}

-- Every call succeeds; a secret is the number of the call that made it.
abbrev pub calm : Env
calm = record {
  answers = λ call n. true;
  generated = λ n. n;
  random_serial = λ n. n + 100;
  left_over = λ n. [];
}

-- The stack takes no names.
abbrev full_stack : Env
full_stack = record calm {
  answers = λ call n. elim call [ sk_general_name_push ↦ false | _ ↦ true ];
}

abbrev pub start : Heap
start = record { asked = 0; next = 0; refs = λ k. 0 }

abbrev pub bare : Disk
bare = record { now = 1000; nodes = λ p. none }

pub bare_plain : IsPlain bare
bare_plain = record { cert = tt; key = tt; trust = tt; cert_pem = tt }

abbrev nobody : ℕ → ℕ
nobody k = 0

start-Owns : Owns (λ k. held new_store k + nobody k) start
start-Owns = record { owned = λ k. refl }

idle : IsIdle calm new_store
idle = new_store-IsIdle calm

abbrev localhost : List ℕ
localhost = 108 ∷ 104 ∷ []

create_ca_example :
    (b : Bool) × (s' : CertStore) × (h' : Heap) × (create_ca calm 1000 new_store start
      ≡ ok ((b, s'), h'))
    × Owns (λ k. held s' k + nobody k) h'
    × IsCreated calm 1000 new_store b s'
create_ca_example = create_ca_lem calm 1000 nobody new_store start start-Owns

issue_for_host-stuck_example : issue_for_host calm plain_pem localhost bare new_store start ≡ stuck
issue_for_host-stuck_example =
    issue_for_host-stuck calm plain_pem localhost bare new_store start idle refl

alt_name_leak_example :
    (h' : Heap) × (san : ℕ) × (string : ℕ) × (alt_name full_stack localhost start ≡ ok (none, h'))
    × Owns (λ k. occurs string k + (occurs san k + nobody k)) h'
alt_name_leak_example =
    alt_name_leak full_stack (λ n. refl) (λ n. refl) (λ n. refl) nobody localhost start
      (record { owned = λ k. refl })

-- A CA with a certificate in the file.
abbrev made_ca : X509
made_ca = record { id = 0; content = ca_certificate 1000 5 }

abbrev made_key : Key
made_key = record { id = 1; secret = 5 }

abbrev loaded_store : CertStore
loaded_store = record new_store { ca_cert = some made_ca; ca_key = some made_key; ca_loaded = true }

abbrev ca_heap : Heap
ca_heap = record { asked = 9; next = 2; refs = λ k. held loaded_store k }

abbrev ca_disk : Disk
ca_disk = record {
  now = 1000;
  nodes = λ p. elim p [
    | ca_cert_path ↦ some (file 1000 (plain_pem.write_cert made_ca.content))
    | ca_key_path ↦ some (file 1000 (plain_pem.write_key made_key.secret))
    | _ ↦ none
  ];
}

serving : Serves calm loaded_store
serving = record { ca = made_ca; ca_key = made_key; has_cert = refl; has_key = refl; cache = tt }

loaded_idle : IsIdle calm loaded_store
loaded_idle = record { unlocked = refl; loaded = λ e. serving; empty = λ e. absurd (cc e) }

ca_heap-Owns : Owns (λ k. held loaded_store k + nobody k) ca_heap
ca_heap-Owns = record { owned = λ k. omega arith }

issue_for_host_example :
    (pair : CertPair) × (s' : CertStore) × (h' : Heap) × (issue_for_host calm plain_pem localhost
        ca_disk loaded_store ca_heap
      ≡ ok ((pair, s', ca_disk), h'))
    × Owns (λ k. held_pair pair k + (held s' k + nobody k)) h'
    × (s'.ca_loaded ≡ true)
    × IsIdle calm s'
    × (((pair ≡ no_pair) × (Succeeds calm → ⊥))
        ⊎ IsFor calm (loaded_idle.loaded refl).ca (loaded_idle.loaded refl).ca_key localhost pair)
issue_for_host_example =
    issue_for_host_lem calm plain_pem nobody (λ n. refl) localhost ca_disk loaded_store loaded_idle
      refl ca_heap ca_heap-Owns

create_cert_for_host_example :
    (pair : CertPair) × (h' : Heap) × (create_cert_for_host calm 1000 localhost loaded_store ca_heap
      ≡ ok (pair, h'))
    × Owns (λ k. held_pair pair k + (held loaded_store k + nobody k)) h'
    × IsAnswer calm 1000 localhost made_ca made_key pair
create_cert_for_host_example =
    create_cert_for_host_lem calm (λ n. refl) 1000 localhost made_ca made_key
      (λ k. held loaded_store k + nobody k) loaded_store ca_heap refl refl ca_heap-Owns

-- The runs that others start from.
first_run :
    (b : Bool) × (s' : CertStore) × (disk' : Disk) × (h' : Heap) × (ensure_ca calm plain_pem bare
        new_store start
      ≡ ok ((b, s', disk'), h'))
    × Owns (λ k. held s' k + nobody k) h'
    × IsIdle calm s'
    × (s'.ca_loaded ≡ b)
    × (IsPlain bare → Succeeds calm → b ≡ true)
    × (new_store.ca_loaded ≡ false
        → IsPlain bare
        → Flushes calm
        → b ≡ true
        → IsStored plain_pem s' disk')
first_run = ensure_ca_lem calm plain_pem plain_laws nobody bare new_store start idle start-Owns

first_answer :
    (pair : CertPair) × (s' : CertStore) × (h' : Heap) × (issue_for_host calm plain_pem localhost
        ca_disk loaded_store ca_heap
      ≡ ok ((pair, s', ca_disk), h'))
    × Owns (λ k. held_pair pair k + (held s' k + nobody k)) h'
    × (s'.ca_loaded ≡ true)
    × IsIdle calm s'
    × (((pair ≡ no_pair) × (Succeeds calm → ⊥))
        ⊎ IsFor calm (loaded_idle.loaded refl).ca (loaded_idle.loaded refl).ca_key localhost pair)
first_answer =
    issue_for_host_lem calm plain_pem nobody (λ n. refl) localhost ca_disk loaded_store loaded_idle
      refl ca_heap ca_heap-Owns

ensure_ca-ensure_ca_example :
    (c : Certificate) × (secret : ℕ) × HasCa c secret first_run.1
    × (t : CertStore) × (disk'' : Disk) × (end : Heap) × (ensure_ca calm plain_pem first_run.2
          new_store start
        ≡ ok ((true, t, disk''), end))
    × HasCa c secret t
ensure_ca-ensure_ca_example =
    ensure_ca-ensure_ca calm calm plain_pem plain_laws bare new_store start bare_plain (λ n. refl)
      idle refl (record { owned = λ k. refl }) first_run.1 first_run.2 first_run.3
      (first_run.4
        ∙ ap (λ b. ok ((b, first_run.1, first_run.2), first_run.3))
            (first_run.8 bare_plain (λ call n. refl)))
      (λ call n. refl) start (record { owned = λ k. refl })

issue_for_host-Memo_example :
    Memo
      (IsGood calm (loaded_idle.loaded refl).ca (loaded_idle.loaded refl).ca_key localhost)
      localhost
      (view loaded_store)
      (answer first_answer.0)
      (view first_answer.1)
    × (Succeeds calm
        → (a : Certificate × ℕ) × (answer first_answer.0 ≡ some a)
          × (view first_answer.1 localhost ≡ some a)
          × ((b : Certificate × ℕ) → view loaded_store localhost ≡ some b → a ≡ b))
issue_for_host-Memo_example =
    issue_for_host-Memo calm plain_pem nobody (λ n. refl) localhost ca_disk loaded_store loaded_idle
      refl ca_heap ca_heap-Owns first_answer.0 first_answer.1 ca_disk first_answer.2 first_answer.3
