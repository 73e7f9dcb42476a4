-- ===== src/Worker/Validators.antt =====
-- x/worker/module.go, EndBlock: the validators that the module hands to consensus every 120 blocks.
-- The committee of x/vrf is an argument: `none` where the draw fails or there is no keeper.
use funai_chain.Base.{
  ℕ, ◌^◌, ◌%◌, ◌≡◌, ◌==◌, true, not, leb, Option, none, some, List, [], ◌∷◌, ◌++◌, Dict, All,
  lookup, insert, get_or, arith, refl, if◌then◌else◌, Bool-cases, Option-cases, inl, inr,
  lookup-insert,
}
use funai_chain.Worker.Types.{Worker, is_active}
use funai_chain.Worker.Keeper.{Register, WorkerContext, get_all_workers}
use funai_chain.Worker.Jail.{process_exiting_workers}

-- The eligible addresses in order, and the two maps by address.
pub record Eligible : Type 0 where
  pub addresses : List ℕ
  pub pubkeys : Dict ℕ
  pub powers : Dict ℕ

abbrev pub nobody : Eligible
nobody = record { addresses = []; pubkeys = []; powers = [] }

abbrev pub power_of : Worker → ℕ
power_of w = if w.stake == 0 then 1 else w.stake

abbrev pub add_eligible : Worker → Eligible → Eligible
add_eligible w e = record {
  addresses = e.addresses ++ w.address ∷ [];
  pubkeys = insert w.address w.pubkey e.pubkeys;
  powers = insert w.address (power_of w) e.powers;
}

-- `none` is the panic of `Int64` on a stake that does not fit.
unfoldable pub collect_eligible : List Worker → Eligible → Option Eligible
collect_eligible [] e = some e
collect_eligible (w ∷ ws) e =
    let skipped = collect_eligible ws e in
    let added = collect_eligible ws (add_eligible w e) in
    if not (is_active w)
    then skipped
    else if w.pubkey == 0
    then skipped
    else if leb (2 ^ 63) w.stake
    then none
    else added

abbrev pub Update : Type 0
Update = ℕ × ℕ

unfoldable pub updates_of : List ℕ → Eligible → List Update
updates_of [] e = []
updates_of (a ∷ addrs) e =
    let rest = updates_of addrs e in
    elim (lookup a e.pubkeys) [
      | none ↦ rest
      | some key ↦ if key == 0 then rest else (key, get_or 0 (lookup a e.powers)) ∷ rest
    ]

-- An empty committee counts as a failed draw, and no draw is made for nobody.
abbrev pub selected : Option (List ℕ) → Eligible → List ℕ
selected none e = e.addresses
selected (some []) e = e.addresses
selected (some (m ∷ ms)) e = elim e.addresses [ [] ↦ [] | _ ∷ _ ↦ m ∷ ms ]

module _ {S : Type 0} (c : WorkerContext S) where
  unfoldable pub worker_end_block :
      (List ℕ → Option (List ℕ)) → Register S → Option (List Update × Register S)
  unfolding collect_eligible updates_of
  worker_end_block draw s =
      let t = process_exiting_workers c s in
      let updated : Option (List Update × Register S) =
        elim (collect_eligible (get_all_workers t) nobody) [
          | none ↦ none
          | some e ↦ some (updates_of (selected (draw e.addresses) e) e, t)
        ] in
      if c.height % 120 == 0 then updated else some ([], t)

-- A validator of the list: an active worker's key, with its stake as power, or 1 where it has none.
pub data IsAmong (w : Worker) : List Worker → Type 0 where
  here : (ws : List Worker) → IsAmong w (w ∷ ws)
  there : (v : Worker) (ws : List Worker) → IsAmong w ws → IsAmong w (v ∷ ws)

abbrev pub IsBacking : List Worker → Update → Worker → Type 0
IsBacking ws u w = IsAmong w ws × (is_active w ≡ true) × (u.0 ≡ w.pubkey) × (u.1 ≡ power_of w)

abbrev IsNamed : List Worker → Eligible → Type 0
IsNamed ws e =
    (a key : ℕ)
    → lookup a e.pubkeys ≡ some key
    → (w : Worker) × IsBacking ws (key, get_or 0 (lookup a e.powers)) w

add_eligible-IsNamed :
    (ws : List Worker) (w : Worker) (e : Eligible)
    → IsAmong w ws
    → is_active w ≡ true
    → IsNamed ws e
    → IsNamed ws (add_eligible w e)
add_eligible-IsNamed ws w e among works named a key found = elim (Bool-cases (a == w.address)) [
  | inl same ↦
      let power : lookup a (insert w.address (power_of w) e.powers) ≡ some (power_of w) =
        ground (arith, lookup-insert a w.address (power_of w) e.powers) in
      (
        w,
        (among, works, ground (arith, lookup-insert a w.address w.pubkey e.pubkeys), rw power refl),
      )
  | inr other ↦
      let power : lookup a (insert w.address (power_of w) e.powers) ≡ lookup a e.powers =
        ground (arith, lookup-insert a w.address (power_of w) e.powers) in
      rw power (named a key (ground (arith, lookup-insert a w.address w.pubkey e.pubkeys)))
]

collect_eligible-IsNamed :
    (all ws : List Worker) (e e' : Eligible)
    → ((w : Worker) → IsAmong w ws → IsAmong w all)
    → IsNamed all e
    → collect_eligible ws e ≡ some e'
    → IsNamed all e'
unfolding collect_eligible
collect_eligible-IsNamed all [] e e' inside named h = let end : e' ≡ e = cc in rw end named
collect_eligible-IsNamed all (w ∷ ws) e e' inside named h =
    let tail = λ (v : Worker) (m : IsAmong v ws). inside v (there w ws m) in
    elim (Bool-cases (is_active w)) [
      | inr idle ↦ collect_eligible-IsNamed all ws e e' tail named (ground (arith, idle, h))
      | inl works ↦ elim (Bool-cases (w.pubkey == 0)) [
        | inl blank ↦
            collect_eligible-IsNamed all ws e e' tail named (ground (arith, works, blank, h))
        | inr keyed ↦
            collect_eligible-IsNamed all ws (add_eligible w e) e' tail
              (add_eligible-IsNamed all w e (inside w (here ws)) works named)
              (ground (arith, works, keyed, h))
      ]
    ]

updates_of-IsBacking :
    (all : List Worker) (addrs : List ℕ) (e : Eligible)
    → IsNamed all e
    → All (λ u. (w : Worker) × IsBacking all u w) (updates_of addrs e)
unfolding updates_of
updates_of-IsBacking all [] e named = tt
updates_of-IsBacking all (a ∷ addrs) e named =
    let rest = updates_of-IsBacking all addrs e named in
    elim (Option-cases (lookup a e.pubkeys)) [
      | inl unknown ↦ rw (updates_of, unknown) rest
      | inr (key, found) ↦ elim (Bool-cases (key == 0)) [
        | inl blank ↦ rw (updates_of, found, blank) rest
        | inr good ↦ rw (updates_of, found, good) (named a key found, rest)
      ]
    ]

-- Whatever committee is drawn, the end of a block hands consensus active workers of the register
-- that it leaves behind, and nobody else: every update is such a worker's key with its stake as
-- power, or 1 where it has no stake.
pub worker_end_block_backed :
    {S : Type 0} (c : WorkerContext S) (draw : List ℕ → Option (List ℕ)) (s t : Register S)
    (us : List Update)
    → worker_end_block c draw s ≡ some (us, t)
    → All (λ u. (w : Worker) × IsBacking (get_all_workers t) u w) us
unfolding worker_end_block
worker_end_block_backed c draw s t us h =
    let left = process_exiting_workers c s in
    elim (Bool-cases (c.height % 120 == 0)) [
      | inr other ↦ let none_due : us ≡ [] = ground (arith, other, h) in rw none_due tt
      | inl due ↦ elim (Option-cases (collect_eligible (get_all_workers left) nobody)) [
        | inl panics ↦ ground (arith, due, panics, h)
        | inr (e, found) ↦
            let rest : t ≡ left = ground (arith, due, found, h) in
            let listed : us ≡ updates_of (selected (draw e.addresses) e) e =
              ground (arith, due, found, h) in
            rw (listed, rest)
              (updates_of-IsBacking (get_all_workers left) (selected (draw e.addresses) e) e (
                collect_eligible-IsNamed (get_all_workers left) (get_all_workers left) nobody e
                  (λ w m. m) (λ a key never. ground (arith, never)) found))
      ]
    ]
