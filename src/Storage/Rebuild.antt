-- ===== src/Storage/Rebuild.antt =====
-- The events that `hydrate` makes of stored ones.
use mathlib.Core.List.{append-nil, append_assoc}
use chat_ai.Base.{
  ◌≤◌, ℕ, suc, ◌+◌, String, List, [], ◌∷◌, ◌++◌, map, none, some, ok, ◌≡◌, refl, sym, ◌∙◌, ap,
  subst, arith, eq_refl, length, length-append,
}
use chat_ai.Ledger
use chat_ai.Ledger.{Draft, LedgerEvent, valid, event_hash, verify_from, verify_chain, last_hash}
use chat_ai.Ledger.Chain.{Fits, valid-head, last_hash-append, relabelled-verify_chain}
use chat_ai.Storage.{Numbered, Rising}
use chat_ai.Storage.Durable.{Stamps, rebuild}

-- An event but for its id and its time, which a start makes anew.
unfoldable pub stripped : LedgerEvent → LedgerEvent
stripped e = record e { id = ""; timestamp = "" }

pub Numbered-stripped :
    (n : ℕ) (xs ys : List LedgerEvent)
    → map stripped xs ≡ map stripped ys
    → Numbered n xs
    → Numbered n ys
unfolding stripped
Numbered-stripped n [] [] e h = tt
Numbered-stripped n [] (y ∷ ys) e h = ground (arith, e)
Numbered-stripped n (x ∷ xs) [] e h = ground (arith, e)
Numbered-stripped n (x ∷ xs) (y ∷ ys) e h =
    let heads : x.seq ≡ y.seq = ground (arith, e) in
    let tails : map stripped xs ≡ map stripped ys = ground (arith, e) in
    (sym heads ∙ h.0, Numbered-stripped (suc n) xs ys tails h.1)

pub Numbered-prefix : (n : ℕ) (xs ys : List LedgerEvent) → Numbered n (xs ++ ys) → Numbered n xs
Numbered-prefix n [] ys h = tt
Numbered-prefix n (x ∷ xs) ys h = (h.0, Numbered-prefix (suc n) xs ys h.1)

pub Numbered-last :
    (n : ℕ) (xs : List LedgerEvent) (x : LedgerEvent)
    → Numbered n xs
    → x.seq ≡ n + length xs
    → Numbered n (xs ++ x ∷ [])
Numbered-last n [] x h e = (omega arith, tt)
Numbered-last n (y ∷ ys) x h e = (h.0, Numbered-last (suc n) ys x h.1 (omega arith))

pub Numbered-Rising : (n m : ℕ) (xs : List LedgerEvent) → m ≤ n → Numbered n xs → Rising m xs
Numbered-Rising n m [] low h = tt
Numbered-Rising n m (x ∷ xs) low h =
    (omega (arith, h.0), Numbered-Rising (suc n) (suc x.seq) xs (omega (arith, h.0)) h.1)

-- An event with a number past the numbered ones.
pub Rising-past :
    (n m : ℕ) (xs : List LedgerEvent) (x : LedgerEvent)
    → m ≤ n
    → Numbered n xs
    → n + length xs ≤ x.seq
    → Rising m (xs ++ x ∷ [])
Rising-past n m [] x low h past = (omega arith, tt)
Rising-past n m (y ∷ ys) x low h past = (
  omega (arith, h.0),
  Rising-past (suc n) (suc y.seq) ys x (omega (arith, h.0)) h.1 (omega arith),
)

module _ (sha256 : String → String) where
  pub verify-stripped :
      (xs : List LedgerEvent) → verify_chain sha256 (map stripped xs) ≡ verify_chain sha256 xs
  unfolding stripped
  verify-stripped xs =
      relabelled-verify_chain sha256 stripped xs (λ _. refl) (λ _. refl) (λ _. refl)

  -- The event that `rebuild` appends for another.
  abbrev again : Stamps → ℕ → LedgerEvent → List LedgerEvent → LedgerEvent
  again stamps n e before =
      (Ledger.append sha256 (stamps.id n) (stamps.timestamp n) e.draft before).0

  again_grows :
      (stamps : Stamps) (n : ℕ) (e : LedgerEvent) (before : List LedgerEvent)
      → (Ledger.append sha256 (stamps.id n) (stamps.timestamp n) e.draft before).1
        ≡ before ++ again stamps n e before ∷ []
  unfolding Ledger.append
  again_grows stamps n e before = refl

  again_hash :
      (stamps : Stamps) (n : ℕ) (e : LedgerEvent) (before : List LedgerEvent)
      → Fits sha256 (last_hash sha256 none before) e
      → (again stamps n e before).hash ≡ e.hash
  unfolding Ledger.append
  again_hash stamps n e before fits = sym fits.0

  again_same :
      (stamps : Stamps) (n : ℕ) (e : LedgerEvent) (before : List LedgerEvent)
      → Fits sha256 (last_hash sha256 none before) e
      → e.seq ≡ length before
      → stripped (again stamps n e before) ≡ stripped e
  unfolding Ledger.append stripped
  again_same stamps n e before fits place = rw (← fits.0, ← fits.1, ← place) refl

  last_again :
      (stamps : Stamps) (n : ℕ) (e : LedgerEvent) (before : List LedgerEvent)
      → last_hash sha256 none (before ++ again stamps n e before ∷ [])
        ≡ some (again stamps n e before).hash
  unfolding last_hash
  last_again stamps n e before = last_hash-append sha256 none before (again stamps n e before ∷ [])

  -- What is rebuilt behind some events.
  pub record Rebuilt (stamps : Stamps) (n : ℕ) (es before : List LedgerEvent) : Type 0 where
    pub more : List LedgerEvent
    pub returns : rebuild sha256 stamps n es before ≡ ok (before ++ more)
    pub same : map stripped more ≡ map stripped es

  pub rebuild-Rebuilt :
      (stamps : Stamps) (n i : ℕ) (es before : List LedgerEvent)
      → verify_from sha256 i (last_hash sha256 none before) es ≡ valid
      → Numbered (length before) es
      → Rebuilt stamps n es before
  unfolding rebuild stripped
  rebuild-Rebuilt stamps n i [] before v h = record {
    more = [];
    returns = ap ok (sym (append-nil before));
    same = refl;
  }
  rebuild-Rebuilt stamps n i (e ∷ rest) before v h =
      let (fits, later) = valid-head sha256 i (last_hash sha256 none before) e rest v in
      let r = again stamps n e before in
      let hashes = again_hash stamps n e before fits in
      let chained : last_hash sha256 none (before ++ r ∷ []) ≡ some e.hash =
        last_again stamps n e before ∙ ap some hashes in
      let size : suc (length before) ≡ length (before ++ r ∷ []) =
        omega (arith, length-append before (r ∷ [])) in
      let ih =
        rebuild-Rebuilt stamps (suc n) (suc i) rest (before ++ r ∷ []) (rw chained later)
          (subst (λ k. Numbered k rest) size h.1) in
      record {
        more = r ∷ ih.more;
        returns =
            rw (hashes, rebuild, eq_refl e.hash, again_grows stamps n e before)
              (ih.returns ∙ ap ok (append_assoc before (r ∷ []) ih.more));
        same = λ j. again_same stamps n e before fits h.0 j ∷ ih.same j;
      }
