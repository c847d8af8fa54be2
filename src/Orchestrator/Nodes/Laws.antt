-- ===== src/Orchestrator/Nodes/Laws.antt =====
-- What the checks on the Nodes decide.
use remnanode_setup_bot.Base.{String, ◌≡◌, refl, sym, ap, inl, inr}
use remnanode_setup_bot.Base.{
  Bool, true, false, not, ◌&&◌, ◌||◌, Option, none, some, List, [], ◌∷◌, ◌++◌, arith,
}
use remnanode_setup_bot.Base.{
  ◌==◌, nat_comparable, string_comparable, if◌then◌else◌, Bool-cases, is_none, any,
}
use remnanode_setup_bot.Base.{ok, eq_iff}
use remnanode_setup_bot.Base.Net.{Addr, addr_comparable, Std}
use remnanode_setup_bot.Remnawave.{Host, Node}
use remnanode_setup_bot.Orchestrator.World.{Kind}
use mathlib.Core.Path.{subst}
use remnanode_setup_bot.Orchestrator.Nodes.{
  Selected, find_host, conflict, name_matches, address_matches, node_conflict, find_conflict,
  recover, recoverable_node,
}

-- The Host that is found has the id.
pub find_host-uuid :
    (id : String) (hosts : List Host) {s : Selected}
    → find_host id hosts ≡ some s
    → s.host.uuid ≡ id
unfolding find_host
find_host-uuid id [] h = absurd (ground arith)
find_host-uuid id (host ∷ hosts) {s} h =
    ground (arith, eq_iff host.uuid id, find_host-uuid id hosts {s = s})

module _ (std : Std) where
  -- A Node that takes the name or the address.
  abbrev pub takes : String → Addr → Node → Bool
  takes name address node = name_matches std name node || address_matches std address node

  abbrev pub is_twin : String → Addr → Node → Bool
  is_twin name address node = name_matches std name node && address_matches std address node

  -- What `checkUnique` excuses: the job's own Node, or on recovery one with both the name and the
  -- address as long as no Node is recorded.
  abbrev pub excused : String → Addr → String → Bool → Node → Bool
  excused name address own allow_recovery node =
      (not (own == "") && node.uuid == own)
      || (allow_recovery && own == "" && is_twin name address node)

  node_conflict-none_iff :
      (name : String) (address : Addr) (own : String) (allow_recovery : Bool) (node : Node)
      → is_none (node_conflict std name address own allow_recovery node)
        ≡ not (takes name address node && not (excused name address own allow_recovery node))
  unfolding node_conflict
  node_conflict-none_iff name address own allow_recovery node =
      table (own == "") (node.uuid == own) allow_recovery (name_matches std name node)
        (address_matches std address node)
    where
      table :
          (e s r n a : Bool)
          → is_none (if not e && s then none else if r && e && n && a then none else conflict n a)
            ≡ not ((n || a) && not (not e && s || r && e && (n && a)))
      table e s r n a = ground arith

  -- The check of uniqueness passes exactly when every Node that takes the name or the address is
  -- excused.
  pub find_conflict-none_iff :
      (name : String) (address : Addr) (own : String) (allow_recovery : Bool) (nodes : List Node)
      → is_none (find_conflict std name address own allow_recovery nodes)
        ≡ not (
            any
              (λ node.
                takes name address node && not (excused name address own allow_recovery node))
              nodes)
  unfolding find_conflict
  find_conflict-none_iff name address own allow_recovery [] = refl
  find_conflict-none_iff name address own allow_recovery (node ∷ nodes) =
      let here = node_conflict-none_iff name address own allow_recovery node in
      let there = find_conflict-none_iff name address own allow_recovery nodes in
      split (node_conflict std name address own allow_recovery node) _ _ _ here there
    where
      split :
          (c rest : Option Kind) (b d : Bool)
          → is_none c ≡ not b
          → is_none rest ≡ not d
          → is_none (elim c [ none ↦ rest | some kind ↦ some kind ]) ≡ not (b || d)
      split c rest b d h k = ground arith

  -- Once a Node is recovered, no later one may take the name or the address.
  recover_after :
      (name : String) (address : Addr) (nodes : List Node) (node : Node) {found : Option Node}
      → recover std name address nodes (some node) ≡ ok found
      → (any (takes name address) nodes ≡ false) × (found ≡ some node)
  unfolding recover
  recover_after name address [] node h = (refl, ground arith)
  recover_after name address (next ∷ nodes) node {found} h =
      ground (arith, recover_after name address nodes node {found = found})

  -- The Nodes recovered from: the list has no Node that takes the name or the address, and none is
  -- recovered, or exactly one, which has both and is recovered.
  pub data Recovered (name : String) (address : Addr) (nodes : List Node)
      : Option Node → Type 0 where
    free : any (takes name address) nodes ≡ false → Recovered name address nodes none
    twin :
        (front : List Node) (node : Node) (back : List Node)
        → nodes ≡ front ++ (node ∷ back)
        → is_twin name address node ≡ true
        → any (takes name address) front ≡ false
        → any (takes name address) back ≡ false
        → Recovered name address nodes (some node)

  Recovered-cons :
      (name : String) (address : Addr) (node : Node) (nodes : List Node) (found : Option Node)
      → takes name address node ≡ false
      → Recovered name address nodes found
      → Recovered name address (node ∷ nodes) found
  Recovered-cons name address node nodes none h (free f) = free (ground arith)
  Recovered-cons name address node nodes (some m) h (twin front _ back e t f b) =
      twin (node ∷ front) m back (ap (λ l. node ∷ l) e) t (ground arith) b

  recover-Recovered :
      (nodes : List Node) (name : String) (address : Addr) (found : Option Node)
      → recover std name address nodes none ≡ ok found
      → Recovered name address nodes found
  unfolding recover
  recover-Recovered [] name address found h =
      subst (Recovered name address []) (ground arith) (free refl)
  recover-Recovered (node ∷ nodes) name address found h =
      elim (Bool-cases (takes name address node)) [
        | inl t ↦ elim (Bool-cases (is_twin name address node)) [
          | inl both ↦
              let (none_later, e) =
                recover_after name address nodes node {found = found} (ground arith) in
              subst (Recovered name address (node ∷ nodes)) (sym e)
                (twin [] node nodes refl both refl none_later)
          | inr one ↦ absurd (ground arith)
        ]
        | inr f ↦
            Recovered-cons name address node nodes found f
              (recover-Recovered nodes name address found (ground arith))
      ]

  -- `recoverableNode` returns without error only if the list is one to recover from: no Node takes
  -- the name or the address and none is recovered, or exactly one Node takes either, it has both,
  -- and it is the one recovered.
  pub recoverable_node-Recovered :
      (nodes : List Node) (name : String) (address : Addr) (found : Option Node)
      → recoverable_node std nodes name address ≡ ok found
      → Recovered name address nodes found
  unfolding recoverable_node
  recoverable_node-Recovered nodes name address found h =
      recover-Recovered nodes name address found h
