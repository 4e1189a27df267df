-- ===== src/Parser/Assemble/Labels.antt =====
-- That the two passes of src/parser_json/parser_json.cpp agree on the addresses of the instructions.
use multicore_simulator.Prelude.{
  ℕ, Bool, true, false, List, [], ◌∷◌, ◌++◌, String, Option, none, some, ◌≡◌, ◌⊎◌, ◌+◌, ◌*◌, inl,
  inr, refl, sym, ap, ◌∙◌, subst, arith, if◌then◌else◌, if-false,
}
use multicore_simulator.Prelude.Assoc.{lookup, insert, lookup-insert}
use mathlib.Core.Option.{some_inj}
use text.Mathlib.Text.{◌==◌ as str_eq}
use text.Mathlib.TextEquality.{eq_iff}
use multicore_simulator.Memory.Manager.{System, write}
use multicore_simulator.Control.Core.{◌>>=◌}
use multicore_simulator.Parser.Text.{text_eq, to_lower}
use multicore_simulator.Parser.Program.{JsonLibrary, Symbols, string_at}
use multicore_simulator.Parser.Assemble.{
  parse_instruction, defines_label, define_label, collect_labels, encode_all,
}

module _ {J : Type 0} (json : JsonLibrary J) where
  open json use {contains}

  -- The instructions in a list of nodes.
  unfoldable pub instructions : List J → ℕ
  instructions [] = 0
  instructions (node ∷ rest) = (if contains node "instruction" then 1 else 0) + instructions rest

  -- The node is an instruction whose label names its own address.
  abbrev pub Labelled : J → String → Type 0
  Labelled node label =
      (contains node "instruction" ≡ true)
      × ((mnem : String) × (string_at json node "instruction" ≡ some mnem)
          × (defines_label json node (to_lower mnem) ≡ true))
      × (string_at json node "label" ≡ some label)

  -- No node names its own address by the label.
  abbrev pub Free : String → List J → Type 0
  Free label [] = Unit
  Free label (node ∷ rest) = (Labelled node label → ⊥) × Free label rest

  -- One node of the first pass, if it is an instruction.
  Defined : J → List (String × ℕ) → ℕ → List (String × ℕ) → Type 0
  Defined node labels addr labels' =
      (labels' ≡ labels)
      ⊎ ((label : String) × (contains node "instruction" ≡ true → Labelled node label)
          × (labels' ≡ insert label addr labels))

  define_label-Defined :
      (node : J) (labels labels' : List (String × ℕ)) (addr : ℕ)
      → define_label json node labels addr ≡ some labels'
      → Defined node labels addr labels'
  unfolding define_label Defined
  define_label-Defined node labels labels' addr = by_mnem (string_at json node "instruction") refl
    where
      named :
          (mnem : String) (o : Option String)
          → string_at json node "instruction" ≡ some mnem
          → defines_label json node (to_lower mnem) ≡ true
          → string_at json node "label" ≡ o
          → (o >>= λ label. some (insert label addr labels)) ≡ some labels'
          → Defined node labels addr labels'
      named mnem none i d k e = absurd (ground arith)
      named mnem (some label) i d k e =
          unfold Defined in inr (label, λ h. (h, (mnem, i, d), k), sym (some_inj.0 e))

      tested :
          (mnem : String) (b : Bool)
          → string_at json node "instruction" ≡ some mnem
          → defines_label json node (to_lower mnem) ≡ b
          → (if b
              then (string_at json node "label" >>= λ label. some (insert label addr labels))
              else some labels)
            ≡ some labels'
          → Defined node labels addr labels'
      tested mnem true i d e = named mnem (string_at json node "label") i d refl e
      tested mnem false i d e = unfold Defined in inl (sym (some_inj.0 e))

      by_mnem :
          (o : Option String)
          → string_at json node "instruction" ≡ o
          → (o >>= λ mnem.
              if defines_label json node (to_lower mnem)
              then (string_at json node "label" >>= λ label. some (insert label addr labels))
              else some labels)
            ≡ some labels'
          → Defined node labels addr labels'
      by_mnem none i e = absurd (ground arith)
      by_mnem (some mnem) i e = tested mnem (defines_label json node (to_lower mnem)) i refl e

  -- A node of the first pass is passed over or defined.
  collect_labels-cons :
      (node : J) (rest : List J) (labels : List (String × ℕ)) (addr : ℕ) (r : List (String × ℕ) × ℕ)
      → collect_labels json (node ∷ rest) labels addr ≡ some r
      → ((contains node "instruction" ≡ false) × (collect_labels json rest labels addr ≡ some r))
        ⊎ ((contains node "instruction" ≡ true)
            × ((labels' : List (String × ℕ)) × (define_label json node labels addr ≡ some labels')
                × (collect_labels json rest labels' (addr + 4) ≡ some r)))
  unfolding collect_labels
  collect_labels-cons node rest labels addr r =
      choose (contains node "instruction") (define_label json node labels addr) refl refl
    where
      choose :
          (b : Bool) (o : Option (List (String × ℕ)))
          → contains node "instruction" ≡ b
          → define_label json node labels addr ≡ o
          → (if b
              then (o >>= λ labels'. collect_labels json rest labels' (addr + 4))
              else collect_labels json rest labels addr)
            ≡ some r
          → ((contains node "instruction" ≡ false)
              × (collect_labels json rest labels addr ≡ some r))
            ⊎ ((contains node "instruction" ≡ true)
                × ((labels' : List (String × ℕ)) × (define_label json node labels addr
                      ≡ some labels')
                    × (collect_labels json rest labels' (addr + 4) ≡ some r)))
      choose false o h k e = inl (h, e)
      choose true none h k e = absurd (ground arith)
      choose true (some labels') h k e = inr (h, (labels', k, e))

  -- Nodes that do not have the label leave it alone.
  collect_labels-Free :
      (nodes : List J) (label : String) (labels last : List (String × ℕ)) (addr end : ℕ)
      → Free label nodes
      → collect_labels json nodes labels addr ≡ some (last, end)
      → lookup label last ≡ lookup label labels
  unfolding collect_labels
  collect_labels-Free [] label labels last addr end free e =
      ap (λ (r : List (String × ℕ) × ℕ). lookup label r.0) (sym (some_inj.0 e))
  collect_labels-Free (node ∷ rest) label labels last addr end (other, free) e =
      elim (collect_labels-cons node rest labels addr (last, end) e) [
        | inl (_, f) ↦ collect_labels-Free rest label labels last addr end free f
        | inr (h, (labels', d, f)) ↦
            collect_labels-Free rest label labels' last (addr + 4) end free f
            ∙ kept h labels' (define_label-Defined node labels labels' addr d)
      ]
    where
      kept :
          contains node "instruction" ≡ true
          → (labels' : List (String × ℕ)) → Defined node labels addr labels'
          → lookup label labels' ≡ lookup label labels
      kept h labels' d = unfold Defined in cases d
        where
          cases :
              ((labels' ≡ labels)
                ⊎ ((l : String) × (contains node "instruction" ≡ true → Labelled node l)
                    × (labels' ≡ insert l addr labels)))
              → lookup label labels' ≡ lookup label labels
          cases (inl k) = ap (lookup label) k
          cases (inr (l, has, k)) =
              let apart : str_eq l label ≡ false = ground (
                arith,
                eq_iff l label,
                λ (f : l ≡ label). other (subst (Labelled node) f (has h)),
              ) in
              ap (lookup label) k ∙ lookup-insert l label addr labels ∙ if-false _ _ _ apart

  -- The first pass over two lists in turn.
  collect_labels-append :
      (xs ys : List J) (labels : List (String × ℕ)) (addr : ℕ) (r : List (String × ℕ) × ℕ)
      → collect_labels json (xs ++ ys) labels addr ≡ some r
      → (labels' : List (String × ℕ)) × (collect_labels json ys labels' (addr + 4 * instructions xs)
          ≡ some r)
  unfolding instructions
  collect_labels-append [] ys labels addr r e =
      (labels, ap (collect_labels json ys labels) (omega arith) ∙ e)
  collect_labels-append (x ∷ xs) ys labels addr r e =
      elim (collect_labels-cons x (xs ++ ys) labels addr r e) [
        | inl (h, f) ↦
            let (labels', g) = collect_labels-append xs ys labels addr r f in
            (labels', rw h (ap (collect_labels json ys labels') (omega arith) ∙ g))
        | inr (h, (labels', d, f)) ↦
            let (last, g) = collect_labels-append xs ys labels' (addr + 4) r f in
            (last, rw h (ap (collect_labels json ys last) (omega arith) ∙ g))
      ]

  -- A labelled node gets the address at which it stands.
  Labelled-define_label :
      (node : J) (label : String) (labels : List (String × ℕ)) (addr : ℕ)
      → Labelled node label
      → define_label json node labels addr ≡ some (insert label addr labels)
  unfolding define_label
  Labelled-define_label node label labels addr (_, (mnem, i, d), l) = rw (i, d, l) refl

  collect_labels-Labelled :
      (before after : List J) (node : J) (label : String) (last : List (String × ℕ)) (start end : ℕ)
      → Labelled node label
      → Free label after
      → collect_labels json (before ++ node ∷ after) [] start ≡ some (last, end)
      → lookup label last ≡ some (start + 4 * instructions before)
  collect_labels-Labelled before after node label last start end labelled free e =
      let (labels, f) = collect_labels-append before (node ∷ after) [] start (last, end) e in
      let here = start + 4 * instructions before in
      elim (collect_labels-cons node after labels here (last, end) f) [
        | inl (h, _) ↦ absurd (ground (arith, labelled.0, h))
        | inr (h, (labels', d, g)) ↦
            let set_here : insert label here labels ≡ labels' =
              some_inj.0 (sym (Labelled-define_label node label labels here labelled) ∙ d) in
            collect_labels-Free after label labels' last (here + 4) end free g
            ∙ ap (lookup label) (sym set_here)
            ∙ lookup-insert label label here labels
            ∙ (ground (arith, eq_iff label label))
      ]

  -- The second pass over two lists in turn.
  encode_all-append :
      (xs ys : List J) (symbols : Symbols) (s s' : System) (process addr next : ℕ)
      → encode_all json xs symbols s process addr ≡ (s', some next)
      → (next ≡ addr + 4 * instructions xs)
        × (encode_all json (xs ++ ys) symbols s process addr
            ≡ encode_all json ys symbols s' process next)
  unfolding encode_all instructions
  encode_all-append [] ys symbols s s' process addr next e =
      let same : addr ≡ next = some_inj.0 (ap (λ (r : System × Option ℕ). r.1) e) in
      let same_system : s ≡ s' = ap (λ (r : System × Option ℕ). r.0) e in
      (omega (arith, same), rw (same, same_system) refl)
  encode_all-append (x ∷ xs) ys symbols s s' process addr next e =
      choose (contains x "instruction") (parse_instruction json symbols x) refl refl
        (encode_all-append xs ys symbols) e
    where
      Rest : Type 0
      Rest =
          (s s' : System) (process addr next : ℕ)
          → encode_all json xs symbols s process addr ≡ (s', some next)
          → (next ≡ addr + 4 * instructions xs)
            × (encode_all json (xs ++ ys) symbols s process addr
                ≡ encode_all json ys symbols s' process next)

      choose :
          (b : Bool) (o : Option ℕ)
          → contains x "instruction" ≡ b
          → parse_instruction json symbols x ≡ o
          → Rest
          → encode_all json (x ∷ xs) symbols s process addr ≡ (s', some next)
          → (next ≡ addr + 4 * instructions (x ∷ xs))
            × (encode_all json (x ∷ (xs ++ ys)) symbols s process addr
                ≡ encode_all json ys symbols s' process next)
      choose false o h k rest =
          rw (h, encode_all)
            (λ f. let (moved, same) = rest s s' process addr next f in (omega (arith, moved), same))
      choose true none h k rest =
          rw (h, k, encode_all)
            (λ f. absurd (ground (arith, ap (λ (r : System × Option ℕ). r.1) f)))
      choose true (some w) h k rest =
          rw (h, k, encode_all)
            (λ f.
              let (moved, same) = rest (write s addr w process) s' process (addr + 4) next f in
              (omega (arith, moved), same))

  -- The two passes agree. Take a program whose first pass from address `start` without labels ends with
  -- the labels `last`, and in it an instruction with a label that names its own address, which no node
  -- behind it does by that label. If the second pass encodes all instructions before it and stands at `next` then,
  -- the label has the address `next`, and the second pass goes on from there with the instruction.
  pub collect_labels-encode_all :
      (before after : List J) (node : J) (label : String) (last : List (String × ℕ)) (start end : ℕ)
      (symbols : Symbols) (s s' : System) (process next : ℕ)
      → Labelled node label
      → Free label after
      → collect_labels json (before ++ node ∷ after) [] start ≡ some (last, end)
      → encode_all json before symbols s process start ≡ (s', some next)
      → (lookup label last ≡ some next)
        × (encode_all json (before ++ node ∷ after) symbols s process start
            ≡ encode_all json (node ∷ after) symbols s' process next)
  collect_labels-encode_all before after node label last start end symbols s s' process next
        labelled free e f =
      let (moved, same) =
        encode_all-append before (node ∷ after) symbols s s' process start next f in
      (
        collect_labels-Labelled before after node label last start end labelled free e
            ∙ ap some (sym moved),
        same,
      )
