-- ===== src/Dns/Pointers.antt =====
-- Name compression in `build_dns_response`: the pointers that it writes, and those that it reads.
use webcm.Common.{
  ℕ, ◌+◌, ◌-◌, ◌*◌, ◌%◌, ◌^◌, ◌<◌, ◌≡◌, ◌↔◌, subst, ap, ◌∙◌, List, [], ◌∷◌, ◌++◌, append_assoc,
  append-nil, leb, Option, none, some, length, ok, arith, if◌then◌else◌, true,
}
use webcm.Dns.Query.{
  Question, Header, IsQuery, asks_address, encode_question, encode_query, reference_answer,
  respond_one, reference_response, encode_u16, count_addresses,
}
use webcm.Dns.Response.{build_dns_response}
use webcm.Dns.Exact.Whole.{build_dns_response-encode}

-- A resource record as a resolver reads it, its name given by a compression pointer.
pub record Answer : Type 0 where
  pub name_at : ℕ
  pub atype : ℕ
  pub aclass : ℕ
  pub ttl : ℕ
  pub rdlength : ℕ
  pub address : ℕ

abbrev pub decode_answer : List ℕ → Option Answer
decode_answer (p ∷ q ∷ t ∷ u ∷ c ∷ d ∷ w ∷ x ∷ y ∷ z ∷ r ∷ s ∷ i ∷ j ∷ k ∷ l ∷ []) =
    if leb 192 p
    then some (record {
      name_at = (p - 192) * 256 + q;
      atype = t * 256 + u;
      aclass = c * 256 + d;
      ttl = ((w * 256 + x) * 256 + y) * 256 + z;
      rdlength = r * 256 + s;
      address = ((i * 256 + j) * 256 + k) * 256 + l;
    })
    else none
decode_answer _ = none

-- An answer reads as an address record of class IN for sixty seconds, with the address of the
-- proxy, and with a pointer to the question's place modulo 256.
pub decode_answer-reference_answer :
    (place ip : ℕ)
    → ip < 2 ^ 32
    → decode_answer (reference_answer place ip)
      ≡ some (record {
        name_at = place % 256;
        atype = 1;
        aclass = 1;
        ttl = 60;
        rdlength = 4;
        address = ip;
      })
unfolding reference_answer
decode_answer-reference_answer place ip h = ground arith

-- Of two questions the second is answered, if it asks for an address, by a record whose pointer leads
-- to the question exactly if that stands in the first 256 bytes of the response.
pub second_answer_pointer :
    (h : Header) (p q : Question) (ip : ℕ)
    → IsQuery h (p ∷ q ∷ [])
    → asks_address q ≡ true
    → ip < 2 ^ 32
    → let query = encode_query h (p ∷ q ∷ []) in
      let place = 12 + length (respond_one ip 12 p) in
      (front : List ℕ) × (a : Answer) × (build_dns_response query (length query) ip
        ≡ ok (front ++ (encode_question q ++ reference_answer place ip)))
      × (length front ≡ place)
      × (decode_answer (reference_answer place ip) ≡ some a)
      × ((a.name_at ≡ place) ↔ (place < 256))
unfolding reference_response
second_answer_pointer h p q ip v asks k =
    let query = encode_query h (p ∷ q ∷ []) in
    let place = 12 + length (respond_one ip 12 p) in
    let whole = build_dns_response-encode h (p ∷ q ∷ []) [] (length query) ip v (omega arith) in
    (
      front,
      _,
      subst
            (λ b.
              build_dns_response b (length query) ip ≡ ok (reference_response h (p ∷ q ∷ []) ip))
            (append-nil query) whole
          ∙ ap ok shape,
      omega arith,
      decode_answer-reference_answer place ip k,
      (λ e. omega arith, λ e. omega arith),
    )
  where
    place' : ℕ
    place' = 12 + length (respond_one ip 12 p)

    front : List ℕ
    front =
        h.id_high
        ∷ h.id_low
        ∷ 0x81
        ∷ 0x80
        ∷ (encode_u16 2
            ++ (encode_u16 (count_addresses (p ∷ q ∷ [])) ++ (0 ∷ 0 ∷ 0 ∷ 0 ∷ respond_one ip 12 p)))

    shape :
        reference_response h (p ∷ q ∷ []) ip
        ≡ front ++ (encode_question q ++ reference_answer place' ip)
    shape =
        ap
          (λ t.
            h.id_high
            ∷ h.id_low
            ∷ 0x81
            ∷ 0x80
            ∷ (encode_u16 2 ++ (encode_u16 (count_addresses (p ∷ q ∷ [])) ++ (0 ∷ 0 ∷ 0 ∷ 0 ∷ t))))
          (rw (asks, append-nil, append_assoc))
