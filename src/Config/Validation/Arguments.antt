-- ===== src/Config/Validation/Arguments.antt =====
-- The verdict of `validateConfig` of core/src/general.hpp on the arguments of the program.
use nipovpn.Base.{
  ◌≡◌, refl, sym, ◌∙◌, ◌↔◌, ◌⊎◌, Bool, true, false, List, [], ◌∷◌, Bytes, codes, inl, inr, equal,
  equal_iff, arith, Bool-cases,
}
use nipovpn.Crypto.{BoolStr}
use nipovpn.Host.{Host, Yields, value, value_inj}
use nipovpn.Config.Validation
use nipovpn.Config.Validation.Accepted.{Gives, IsValid, IsAccepted}
use nipovpn.Config.Validation.Entries.{Decides, Decides-map, caught-Decides, check_node-Decides}

module _ (h : Host) where
  open h use {World, Node}

  -- A path to a valid file.
  record IsLoaded (path : Bytes) (r : Bool × World) : Type 0 where
    node : Node
    readable : r.0 ≡ true
    loaded : (h.load_file path r.1).0 ≡ value node
    valid : IsValid h node

  check_loaded-Decides :
      (r : Yields Node × World)
      → Decides h
          (Validation.check_loaded h r).0
          (Gives r.0 × ((n : Node) → r.0 ≡ value n → IsValid h n))
  check_loaded-Decides (r, w) =
      caught-Decides h (codes "Error parsing config file: ") r (Validation.check_node h)
        ((λ x. x), (λ x. x))
        (λ n e _.
          Decides-map h ((λ v m e'. rw (sym (value_inj (sym e ∙ e'))) v), (λ k. k n e))
            (check_node-Decides h n))

  check_readable-Decides :
      (path : Bytes) (r : Bool × World)
      → Decides h (Validation.check_readable h path r).0 (IsLoaded path r)
  check_readable-Decides path (true, w) =
      Decides-map h
        (
          (λ ((n, e), k). record { node = n; readable = refl; loaded = e; valid = k n e }),
          (λ v. ((v.node, v.loaded), (λ n e. rw (sym (value_inj (sym v.loaded ∙ e))) v.valid))),
        )
        (check_loaded-Decides (h.load_file path w))
  check_readable-Decides path (false, w) =
      (_, refl, ((λ g. ground arith), (λ v. ground (arith, v.readable))))

  accepted_iff :
      (name mode path : Bytes) (w : World)
      → (mode ≡ codes "server") ⊎ (mode ≡ codes "agent")
      → IsLoaded path (h.readable path w) ↔ IsAccepted h (name ∷ mode ∷ path ∷ []) w
  accepted_iff name mode path w known = (
    (λ v. record {
      name = name;
      mode = mode;
      path = path;
      node = v.node;
      arguments = refl;
      mode_known = known;
      readable = v.readable;
      loaded = v.loaded;
      valid = v.valid;
    }),
    (λ v.
        let same : v.path ≡ path = ground (arith, v.arguments) in
        rw (sym same)
          (record { node = v.node; readable = v.readable; loaded = v.loaded; valid = v.valid })),
  )

  -- Whatever the arguments and the file, `validateConfig` returns, and it accepts exactly if there
  -- are two arguments, the first is `server` or `agent`, and the second is the path of a file that
  -- can be read and parsed, has every entry that is required, each of its type, names the protocol
  -- `http` or `socks5`, and has a buffer size between 1 and 65536.
  pub validate_config_iff :
      (args : List Bytes) (w : World)
      → (b : BoolStr) × ((Validation.validate_config h args w).0 ≡ value b)
        × ((b.good ≡ true) ↔ IsAccepted h args w)
  unfolding Validation.validate_config
  validate_config_iff [] w = (_, refl, ((λ g. ground arith), (λ v. ground (arith, v.arguments))))
  validate_config_iff (name ∷ []) w =
      (_, refl, ((λ g. ground arith), (λ v. ground (arith, v.arguments))))
  validate_config_iff (name ∷ mode ∷ []) w =
      (_, refl, ((λ g. ground arith), (λ v. ground (arith, v.arguments))))
  validate_config_iff (name ∷ mode ∷ path ∷ x ∷ args) w =
      (_, refl, ((λ g. ground arith), (λ v. ground (arith, v.arguments))))
  validate_config_iff (name ∷ mode ∷ path ∷ []) w =
      elim (Bool-cases (equal mode (codes "server"))) [
        | inl a ↦ rw a (
            Decides-map h (accepted_iff name mode path w (inl (equal_iff.0 a)))
              (check_readable-Decides path (h.readable path w)))
        | inr a ↦ elim (Bool-cases (equal mode (codes "agent"))) [
          | inl b ↦
              rw (a, b)
                (Decides-map h (accepted_iff name mode path w (inr (equal_iff.0 b)))
                  (check_readable-Decides path (h.readable path w)))
          | inr b ↦
              rw (a, b)
                (
                  _,
                  refl,
                  (
                    (λ g. ground arith),
                    (λ v. elim v.mode_known [
                      | inl k ↦ ground (arith, v.arguments, equal_iff.1 k)
                      | inr k ↦ ground (arith, v.arguments, equal_iff.1 k)
                    ]),
                  ),
                )
        ]
      ]
