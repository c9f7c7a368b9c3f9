-- ===== src/Config/Validation/Entries.antt =====
-- The verdict of `validateConfig` of core/src/general.hpp on the entries of a file that was parsed.
use nipovpn.Base.{
  ℕ, ◌≤◌, ◌≡◌, refl, sym, ap, ◌∙◌, ◌↔◌, ◌⊎◌, Bool, true, false, ◌||◌, List, [], ◌∷◌, Bytes, codes,
  All, inl, inr, equal, equal_iff, arith, ltb, Bool-cases, if◌then◌else◌,
}
use nipovpn.Crypto.{BoolStr}
use nipovpn.Host.{Host, Yields, value, raised, ◌>>◌, value_inj}
use nipovpn.Config.Loading.{string_at, strings_at, unsigned_at, short_at, bool_at}
use nipovpn.Config.Validation
use nipovpn.Config.Validation.Accepted.{
  text, texts, unsigned, short, bool, Required, required_general, required_log, required_server,
  required_agent, Gives, Holds, IsValid,
}

module _ (h : Host) where
  open h use {Node}

  check : Node → Required → Yields Unit → Yields Unit
  check n (text, block, key) rest = string_at h n block key >> rest
  check n (texts, block, key) rest = strings_at h n block key >> rest
  check n (unsigned, block, key) rest = unsigned_at h n block key >> rest
  check n (short, block, key) rest = short_at h n block key >> rest
  check n (bool, block, key) rest = bool_at h n block key >> rest

  >>-value_iff :
      {A : Type 0} (r : Yields A) (rest : Yields Unit)
      → (r >> rest ≡ value tt) ↔ (Gives r × (rest ≡ value tt))
  >>-value_iff (value a) rest = ((λ e. ((a, refl), e)), (λ (_, e). e))
  >>-value_iff (raised what) rest = ground arith

  check_iff :
      (n : Node) (q : Required) (rest : Yields Unit)
      → (check n q rest ≡ value tt) ↔ (Holds h n q × (rest ≡ value tt))
  unfolding check
  check_iff n (text, block, key) rest = >>-value_iff (string_at h n block key) rest
  check_iff n (texts, block, key) rest = >>-value_iff (strings_at h n block key) rest
  check_iff n (unsigned, block, key) rest = >>-value_iff (unsigned_at h n block key) rest
  check_iff n (short, block, key) rest = >>-value_iff (short_at h n block key) rest
  check_iff n (bool, block, key) rest = >>-value_iff (bool_at h n block key) rest

  check_all : Node → List Required → Yields Unit
  check_all n [] = value tt
  check_all n (q ∷ qs) = check n q (check_all n qs)

  check_all_iff : (n : Node) (qs : List Required) → (check_all n qs ≡ value tt) ↔ All (Holds h n) qs
  unfolding check_all
  check_all_iff n [] = ((λ _. tt), (λ _. refl))
  check_all_iff n (q ∷ qs) =
      let head = check_iff n q (check_all n qs) in
      let tail = check_all_iff n qs in
      ((λ e. let (x, e') = head.0 e in (x, tail.0 e')), (λ (x, xs). head.1 (x, tail.1 xs)))

  -- A call that returns a verdict, which is positive exactly where the condition holds.
  abbrev pub Decides : Yields BoolStr → Type 0 → Type 0
  Decides r P = (b : BoolStr) × (r ≡ value b) × ((b.good ≡ true) ↔ P)

  pub caught-Decides :
      {A : Type 0} {P Q : Type 0} (message : Bytes) (r : Yields A) (rest : A → Yields BoolStr)
      → ((Gives r) ↔ P)
      → ((a : A) → r ≡ value a → P → Decides (rest a) Q)
      → Decides (Validation.caught h message r rest) (P × Q)
  caught-Decides message (value a) rest i k =
      let p = i.0 (a, refl) in
      let (b, e, j) = k a refl p in (b, e, ((λ g. (p, j.0 g)), (λ (_, q). j.1 q)))
  caught-Decides message (raised what) rest i k =
      (_, refl, ((λ g. ground arith), (λ (p, _). let (a, e) = i.1 p in ground arith)))

  block_iff :
      (n : Node) (qs : List Required) (r : Yields Unit)
      → r ≡ check_all n qs
      → (Gives r) ↔ All (Holds h n) qs
  block_iff n qs r e =
      ((λ (a, x). (check_all_iff n qs).0 (sym e ∙ x)), (λ xs. (tt, e ∙ (check_all_iff n qs).1 xs)))

  -- The values that the last tests accept.
  record InRange (n : Node) : Type 0 where
    protocol :
        (string_at h n (codes "general") (codes "protocol") ≡ value (codes "http"))
        ⊎ (string_at h n (codes "general") (codes "protocol") ≡ value (codes "socks5"))
    size : ℕ
    size_read : unsigned_at h n (codes "general") (codes "bufferSize") ≡ value size
    size_range : (1 ≤ size) × (size ≤ 65536)

  unless-Decides :
      {P : Type 0} (b : Bool) (message : Bytes)
      → ((b ≡ false) ↔ P)
      → Decides
          (if b
            then value (Validation.failed message)
            else value (record { good = true; text = codes "OK" }))
          P
  unless-Decides true message i = (_, refl, ((λ g. ground arith), (λ p. ground (arith, i.1 p))))
  unless-Decides false message i = (_, refl, ((λ g. i.0 refl), (λ p. refl)))

  pub Decides-map : {P Q : Type 0} {r : Yields BoolStr} → (P ↔ Q) → Decides r P → Decides r Q
  Decides-map i (b, e, j) = (b, e, ((λ g. i.0 (j.0 g)), (λ q. j.1 (i.1 q))))

  values-InRange :
      (n : Node) (p : Bytes) (size : ℕ)
      → string_at h n (codes "general") (codes "protocol") ≡ value p
      → unsigned_at h n (codes "general") (codes "bufferSize") ≡ value size
      → (p ≡ codes "http") ⊎ (p ≡ codes "socks5")
      → ((ltb size 1 || ltb 65536 size) ≡ false) ↔ InRange n
  values-InRange n p size e e' known = (
    (λ g. record {
      protocol = elim known [ inl k ↦ inl (e ∙ ap value k) | inr k ↦ inr (e ∙ ap value k) ];
      size = size;
      size_read = e';
      size_range = (ground arith, ground arith);
    }),
    (λ v.
        let same = value_inj (sym e' ∙ v.size_read) in
        let (low, high) = v.size_range in rw same (ground arith)),
  )

  protocol_known :
      (n : Node) (p : Bytes)
      → string_at h n (codes "general") (codes "protocol") ≡ value p
      → InRange n
      → (p ≡ codes "http") ⊎ (p ≡ codes "socks5")
  protocol_known n p e v = elim v.protocol [
    | inl k ↦ inl (value_inj (sym e ∙ k))
    | inr k ↦ inr (value_inj (sym e ∙ k))
  ]

  check_values-Decides :
      (n : Node) (p : Bytes) (size : ℕ)
      → string_at h n (codes "general") (codes "protocol") ≡ value p
      → unsigned_at h n (codes "general") (codes "bufferSize") ≡ value size
      → Decides (Validation.check_values h n) (InRange n)
  unfolding Validation.check_values
  check_values-Decides n p size e e' = elim (Bool-cases (equal p (codes "http"))) [
    | inl a ↦
        let i = values-InRange n p size e e' (inl (equal_iff.0 a)) in
        rw (e, e', a) (unless-Decides _ _ i)
    | inr a ↦ elim (Bool-cases (equal p (codes "socks5"))) [
      | inl b ↦
          let i = values-InRange n p size e e' (inr (equal_iff.0 b)) in
          rw (e, e', a, b) (unless-Decides _ _ i)
      | inr b ↦
          rw (e, e', a, b)
            (unless-Decides true _ (
              (λ g. ground arith),
              (λ v. elim (protocol_known n p e v) [
                | inl k ↦ ground (arith, equal_iff.1 k)
                | inr k ↦ ground (arith, equal_iff.1 k)
              ]),
            ))
    ]
  ]

  all_iff :
      (n : Node)
      → (All (Holds h n) required_general
          × (All (Holds h n) required_log
              × (All (Holds h n) required_server × (All (Holds h n) required_agent × InRange n))))
        ↔ IsValid h n
  all_iff n = (
    (λ (g, (l, (s, (a, v)))). record {
      general = g;
      log = l;
      server = s;
      agent = a;
      protocol = v.protocol;
      size = v.size;
      size_read = v.size_read;
      size_range = v.size_range;
    }),
    (λ v. (
      v.general,
      (
        v.log,
        (
          v.server,
          (
            v.agent,
            record {
              protocol = v.protocol;
              size = v.size;
              size_read = v.size_read;
              size_range = v.size_range;
            },
          ),
        ),
      ),
    )),
  )

  pub check_node-Decides : (n : Node) → Decides (Validation.check_node h n) (IsValid h n)
  unfolding Validation.check_node Validation.read_general Validation.read_log Validation.read_server
      Validation.read_agent check_all check
  check_node-Decides n = Decides-map (all_iff n) (
      caught-Decides (codes "Error in 'general' block: ") (Validation.read_general h n)
        (λ _. Validation.check_log h n) (block_iff n required_general _ refl)
        (λ _ _ g. behind_general g))
    where
      behind_agent :
          All (Holds h n) required_general
          → Decides (Validation.check_agent h n) (All (Holds h n) required_agent × InRange n)
      behind_agent g =
          caught-Decides (codes "Error in 'agent' block: ") (Validation.read_agent h n)
            (λ _. Validation.check_values h n) (block_iff n required_agent _ refl)
            (λ _ _ _. check_values-Decides n _ _ g.1.0.1 g.1.1.0.1)

      behind_general :
          All (Holds h n) required_general
          → Decides (Validation.check_log h n) (
              All (Holds h n) required_log
              × (All (Holds h n) required_server × (All (Holds h n) required_agent × InRange n)))
      behind_general g =
          caught-Decides (codes "Error in 'log' block: ") (Validation.read_log h n)
            (λ _. Validation.check_server h n) (block_iff n required_log _ refl)
            (λ _ _ _.
              caught-Decides (codes "Error in 'server' block: ") (Validation.read_server h n)
                (λ _. Validation.check_agent h n) (block_iff n required_server _ refl)
                (λ _ _ _. behind_agent g))
