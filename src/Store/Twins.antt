-- ===== src/Store/Twins.antt =====
-- Which intents are duplicates, said of the values of their fields.
use solmesh.Prelude.{
  ap, sym, ◌≡◌, refl, ◌⊎◌, inl, inr, true, Bool-cases, List, [], ◌∷◌, ◌++◌, arith, Option, none,
  some, String,
}
use solmesh.Prelude.Eq.{string_eq}
use solmesh.Store.{IntentStatus, pending, status_eq, Intent, mint_eq, matches, is_duplicate}

-- `i` waits, and pays the same from the same wallet to the same recipient as `x`.
pub record Twin (i x : Intent) : Type 0 where
  pub waits : i.status ≡ pending
  pub wallet : i.wallet_name ≡ x.wallet_name
  pub recipient : i.recipient ≡ x.recipient
  pub amount : i.amount ≡ x.amount
  pub mint : i.token_mint ≡ x.token_mint

abbrev pub HasTwin : List Intent → Intent → Type 0
HasTwin [] x = ⊥
HasTwin (i ∷ l) x = Twin i x ⊎ HasTwin l x

-- No pending intent has a twin behind it.
abbrev pub NoTwins : List Intent → Type 0
NoTwins [] = Unit
NoTwins (i ∷ l) = (i.status ≡ pending → ¬ HasTwin l i) × NoTwins l

status_eq-pending : (s : IntentStatus) → status_eq s pending ≡ true → s ≡ pending
status_eq-pending IntentStatus.pending e = refl
status_eq-pending s e = ground arith

mint_eq_sound : (a b : Option String) → mint_eq a b ≡ true → a ≡ b
mint_eq_sound none none e = refl
mint_eq_sound (some a) (some b) e = ap some (ground (arith, string_eq.beq_iff a b))
mint_eq_sound a b e = ground arith

mint_eq_refl : (a : Option String) → mint_eq a a ≡ true
mint_eq_refl none = refl
mint_eq_refl (some a) = ground (arith, string_eq.beq_iff a a)

matches-Twin :
    (i x : Intent) → matches x.wallet_name x.recipient x.amount x.token_mint i ≡ true → Twin i x
matches-Twin i x e = record {
  waits = status_eq-pending i.status (ground arith);
  wallet = ground (arith, string_eq.beq_iff i.wallet_name x.wallet_name);
  recipient = ground (arith, string_eq.beq_iff i.recipient x.recipient);
  amount = ground arith;
  mint = mint_eq_sound i.token_mint x.token_mint (ground arith);
}

Twin-matches :
    (i x : Intent) → Twin i x → matches x.wallet_name x.recipient x.amount x.token_mint i ≡ true
Twin-matches i x t =
    let mints : mint_eq i.token_mint x.token_mint ≡ true = rw t.mint (mint_eq_refl x.token_mint) in
    let waits : status_eq i.status pending ≡ true = rw t.waits refl in
    ground (
      arith,
      t.wallet,
      t.recipient,
      t.amount,
      mints,
      waits,
      string_eq.beq_iff i.wallet_name x.wallet_name,
      string_eq.beq_iff i.recipient x.recipient,
    )

-- The test in `add` finds exactly the twins.
pub is_duplicate-HasTwin :
    (l : List Intent) (x : Intent)
    → is_duplicate l x.wallet_name x.recipient x.amount x.token_mint ≡ true
    → HasTwin l x
unfolding is_duplicate
is_duplicate-HasTwin [] x e = ground arith
is_duplicate-HasTwin (i ∷ l) x e =
    elim (Bool-cases (matches x.wallet_name x.recipient x.amount x.token_mint i)) [
      | inl same ↦ inl (matches-Twin i x same)
      | inr other ↦ inr (is_duplicate-HasTwin l x (ground arith))
    ]

pub HasTwin-is_duplicate :
    (l : List Intent) (x : Intent)
    → HasTwin l x
    → is_duplicate l x.wallet_name x.recipient x.amount x.token_mint ≡ true
unfolding is_duplicate
HasTwin-is_duplicate [] x h = elim h [ ]
HasTwin-is_duplicate (i ∷ l) x (inl t) = let same = Twin-matches i x t in ground arith
HasTwin-is_duplicate (i ∷ l) x (inr h) = let later = HasTwin-is_duplicate l x h in ground arith

HasTwin-append_one :
    (l : List Intent) (y x : Intent) → HasTwin (l ++ y ∷ []) x → HasTwin l x ⊎ Twin y x
HasTwin-append_one [] y x (inl t) = inr t
HasTwin-append_one [] y x (inr h) = elim h [ ]
HasTwin-append_one (i ∷ l) y x (inl t) = inl (inl t)
HasTwin-append_one (i ∷ l) y x (inr h) = elim (HasTwin-append_one l y x h) [
  | inl earlier ↦ inl (inr earlier)
  | inr t ↦ inr t
]

Twin-sym : (i x : Intent) → i.status ≡ pending → Twin x i → Twin i x
Twin-sym i x waits t = record {
  waits = waits;
  wallet = sym t.wallet;
  recipient = sym t.recipient;
  amount = sym t.amount;
  mint = sym t.mint;
}

pub append-NoTwins :
    (l : List Intent) (x : Intent) → ¬ HasTwin l x → NoTwins l → NoTwins (l ++ x ∷ [])
append-NoTwins [] x alone h = (λ _ none_there. none_there, tt)
append-NoTwins (i ∷ l) x alone h = (
  λ waits later. elim (HasTwin-append_one l x i later) [
    | inl twin ↦ h.0 waits twin
    | inr t ↦ alone (inl (Twin-sym i x waits t))
  ],
  append-NoTwins l x (λ later. alone (inr later)) h.1,
)
