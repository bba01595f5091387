-- ===== src/Params/Interface/Guard.antt =====
-- The bridge's own parameters and the whitelist (src/param_interface.cpp).
use foxglove_bridge_ros.Prelude.{
  ◌≡◌, ◌≢◌, refl, sym, ap, ◌∙◌, subst, String, true, false, Option, none, some, List, [], ◌∷◌,
  string_eq, All, arith, Bool-cases, Option-cases, inl, inr,
}
use Prim.Native.String.{count, ◌++◌ as join}
use text.Mathlib.TextEquality.{starts_with_iff}
use text.Mathlib.TextLemmas.{length-append}
use foxglove_bridge_ros.Prelude.Int.{ℤ}
use foxglove_bridge_ros.Utils.{RegexEngine, matches_regex}
use foxglove_bridge_ros.Params.Values.{
  RosValue, boolean, int, double, string, ParameterClass, from_ros_param, value_from_ros_param,
  Value, no_type,
}
use foxglove_bridge_ros.Params.Interface.{
  MasterCall, set_param, delete_param, target, Reading, found, unset, failed, Master,
  is_own_parameter, own_namespace_prefix, admits, converted, read_all, get_params, set_converted,
  set_value, set_one, set_params,
}

module _ {D P : Type 0} (class : ParameterClass D P) where
  value_named :
      (name : String) (o : Option (Value D)) (p : P)
      → elim o [ none ↦ none | some w ↦ some (class.of_value name no_type w) ] ≡ some p
      → class.name p ≡ name
  value_named name none p e = cc
  value_named name (some w) p e = cc (class.name-of_value name no_type w)

  from_ros_param-name :
      (name : String) (v : RosValue D) (p : P)
      → from_ros_param class name v ≡ some p
      → class.name p ≡ name
  unfolding from_ros_param
  from_ros_param-name name (boolean b) p e = cc (class.name-of_bool name b)
  from_ros_param-name name (int i) p e = cc (class.name-of_integer name i)
  from_ros_param-name name (double d) p e = cc (class.name-of_double name d)
  from_ros_param-name name (string s) p e = cc (class.name-of_string name s)
  from_ros_param-name name v p e = value_named name (value_from_ros_param 1 v) p e

one_slash : count "/" ≡ 1
one_slash = refl

not_own_namespace : (node_name : String) → is_own_parameter node_name node_name ≡ false
unfolding is_own_parameter own_namespace_prefix
not_own_namespace node_name = elim (Bool-cases (is_own_parameter node_name node_name)) [
  | inl e ↦
      let (u, same) = (starts_with_iff node_name (own_namespace_prefix node_name)).0 e in
      absurd (
        omega (
          arith,
          ap count same,
          length-append (own_namespace_prefix node_name) u,
          length-append node_name "/",
          one_slash,
        ))
  | inr e ↦ e
]

module _ (engine : RegexEngine String) (node_name : String) (whitelist : List engine.Regex) where
  abbrev pub Admitted : String → Type 0
  Admitted name = admits engine node_name whitelist name ≡ true

  -- A name on the whitelist that is not the node's name, a slash and anything.
  abbrev pub IsShown : String → Type 0
  IsShown name =
      ((rest : String) → name ≢ join (join node_name "/") rest)
      × (matches_regex engine name whitelist ≡ true)

  Admitted-IsShown : (name : String) → Admitted name → IsShown name
  unfolding admits is_own_parameter own_namespace_prefix
  Admitted-IsShown name a = (
    λ rest same. ground (arith, a, (starts_with_iff name (join node_name "/")).1 (rest, sym same)),
    ground (arith, a),
  )

  All-IsShown :
      {P : Type 0} (name_of : P → String) (ps : List P)
      → All (λ p. Admitted (name_of p)) ps
      → All (λ p. IsShown (name_of p)) ps
  All-IsShown name_of [] a = tt
  All-IsShown name_of (p ∷ ps) a = (Admitted-IsShown (name_of p) a.0, All-IsShown name_of ps a.1)

  module _ {W D P : Type 0} (class : ParameterClass D P) (master : Master W D)
      (of_int : ℤ → D) where
    converted-name :
        (name : String) (r : Reading D) (p : P)
        → converted engine node_name whitelist class master of_int name r ≡ some p
        → class.name p ≡ name
    unfolding converted
    converted-name name (found v) p e = from_ros_param-name class name v p e
    converted-name name unset p e = cc
    converted-name name failed p e = cc

    read_all-Admitted :
        (w : W) (names : List String)
        → All
            (λ p. Admitted (class.name p))
            (read_all engine node_name whitelist class master of_int w names)
    unfolding read_all
    read_all-Admitted w [] = tt
    read_all-Admitted w (name ∷ names) =
        elim (Bool-cases (admits engine node_name whitelist name)) [
          | inr e ↦ rw e (read_all-Admitted w names)
          | inl e ↦
              rw e
                (elim (Option-cases (
                  converted engine node_name whitelist class master of_int name
                    (master.get_param name w))) [
                      | inl absent ↦ rw absent (read_all-Admitted w names)
                      | inr (p, read) ↦ rw read (
                        rw (converted-name name (master.get_param name w) p read) e,
                        read_all-Admitted w names,
                      )
                    ])
        ]

    get_params-Admitted :
        (w : W) (names : List String) (ps : List P)
        → get_params engine node_name whitelist class master of_int w names ≡ some ps
        → All (λ p. Admitted (class.name p)) ps
    unfolding get_params
    get_params-Admitted w [] ps e = elim (Option-cases (master.param_names w)) [
      | inl absent ↦ absurd (ground arith)
      | inr (names, known) ↦
          subst (All (λ p. Admitted (class.name p))) (ground arith) (read_all-Admitted w names)
    ]
    get_params-Admitted w (name ∷ names) ps e =
        subst (All (λ p. Admitted (class.name p))) (ground arith)
          (read_all-Admitted w (name ∷ names))

    -- Whatever a client asks for, and so too when it asks for all: the name of each parameter that
    -- it is sent is on the whitelist, and is not spelled as the node's name, a slash and anything.
    pub get_params-IsShown :
        (w : W) (names : List String) (ps : List P)
        → get_params engine node_name whitelist class master of_int w names ≡ some ps
        → All (λ p. IsShown (class.name p)) ps
    get_params-IsShown w names ps e = All-IsShown class.name ps (get_params-Admitted w names ps e)

    -- Names are compared as they are spelled: where roscpp finds a parameter by its resolved name,
    -- a client that asks for one of the bridge's own parameters by a spelling that does not begin
    -- with the node's name, and that the whitelist admits, is sent what the master holds there.
    pub get_params_other_spelling :
        (w : W) (name rest : String) (v : RosValue D) (p : P)
        → ((n : String) (x : W) → master.get_param n x ≡ master.get_param (master.resolve n) x)
        → master.resolve name ≡ join (join node_name "/") rest
        → master.get_param (join (join node_name "/") rest) w ≡ found v
        → is_own_parameter node_name name ≡ false
        → matches_regex engine name whitelist ≡ true
        → from_ros_param class name v ≡ some p
        → get_params engine node_name whitelist class master of_int w (name ∷ []) ≡ some (p ∷ [])
    unfolding get_params admits converted
    get_params_other_spelling w name rest v p resolves own held foreign listed read =
        let sent : master.get_param name w ≡ found v =
          resolves name w ∙ ap (λ n. master.get_param n w) own ∙ held in
        rw (foreign, listed, sent) (rw (read, converted))

    -- The guard lets the bridge's own namespace itself through: where the whitelist admits the
    -- node's name, a client that asks for the parameter of that name is sent what the master holds
    -- there.
    pub get_params_own_namespace :
        (w : W) (v : RosValue D) (p : P)
        → matches_regex engine node_name whitelist ≡ true
        → master.get_param node_name w ≡ found v
        → from_ros_param class node_name v ≡ some p
        → get_params engine node_name whitelist class master of_int w (node_name ∷ [])
          ≡ some (p ∷ [])
    unfolding get_params admits converted
    get_params_own_namespace w v p listed held read =
        rw (not_own_namespace node_name, listed, held) (rw (read, converted))

    module _ (Keeps : W → Type 0)
        (calls : (c : MasterCall D) (w : W)
          → Admitted (target c)
          → Keeps w
          → Keeps (master.perform c w).0) where
      converted-Keeps :
          (name : String) (o : Option (RosValue D)) (w : W)
          → Admitted name
          → Keeps w
          → Keeps (set_converted engine node_name whitelist class master of_int name o w)
      unfolding set_converted
      converted-Keeps name none w a k = k
      converted-Keeps name (some r) w a k = calls (set_param name r) w a k

      set_value-Keeps :
          (p : P) (o : Option (Value D)) (w : W)
          → Admitted (class.name p)
          → Keeps w
          → Keeps (set_value engine node_name whitelist class master of_int p o w)
      unfolding set_value
      set_value-Keeps p none w a k = calls (delete_param (class.name p)) w a k
      set_value-Keeps p (some v) w a k = converted-Keeps (class.name p) _ w a k

      set_one-Keeps :
          (p : P) (w : W)
          → Admitted (class.name p)
          → Keeps w
          → Keeps (set_one engine node_name whitelist class master of_int p w)
      set_one-Keeps p w a k = set_value-Keeps p (class.value p) w a k

      -- What every call on an admitted parameter keeps, a client's request to set parameters
      -- keeps: the bridge's own parameters, and those off the whitelist, are out of its reach.
      pub set_params-Keeps :
          (ps : List P) (w : W)
          → Keeps w
          → Keeps (set_params engine node_name whitelist class master of_int ps w)
      unfolding set_params
      set_params-Keeps [] w k = k
      set_params-Keeps (p ∷ ps) w k =
          elim (Bool-cases (admits engine node_name whitelist (class.name p))) [
            | inl e ↦ rw e (set_params-Keeps ps _ (set_one-Keeps p w e k))
            | inr e ↦ rw e (set_params-Keeps ps w k)
          ]
