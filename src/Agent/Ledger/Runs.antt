-- ===== src/Agent/Ledger/Runs.antt =====
-- One call on the ledger's document, and runs of calls: what each change preserves, a run preserves,
-- whatever the file system answers.
use z_bacs.Prelude.{
  ◌≡◌, ◌⊎◌, inl, inr, refl, sym, Option, none, some, List, [], ◌∷◌, ok, err, ◌>>=◌, String, >>=-ok,
  Result-cases, subst, All, arith,
}
use z_bacs.Agent.Ledger.{File, Io, Json, ReadsBack, load, store, replacement}
use z_bacs.Agent.Ledger.Calls.{Call, Reply, change, call, run, held}

module _ {Doc : Type 0} (json : Json Doc) where
  load-held :
      (io : Io) (disk : Option Doc) (f : File) {g : File}
      → held json disk ≡ some f
      → load json io disk ≡ ok g
      → f ≡ g
  unfolding load held
  load-held io none f h l = ground arith
  load-held io (some d) f h l = ground arith

  replacement-written :
      (io : Io) (f : File) {doc : Doc}
      → replacement json io f ≡ ok doc
      → json.to_vec_pretty f ≡ ok doc
  unfolding replacement
  replacement-written io f h = ground arith

module _ {Doc : Type 0} (json : Json Doc) (law : ReadsBack json) where
  store-held :
      (io : Io) (g : File) (disk : Option Doc)
      → (((e : String) × (store json io g disk ≡ (disk, err e)))
          ⊎ ((doc : Doc) × (store json io g disk ≡ (some doc, ok tt))
              × (held json (some doc) ≡ some g)))
  unfolding store held
  store-held io g disk = elim (Result-cases (replacement json io g)) [
    | inl (e, h) ↦ inl (e, rw (h, store) refl)
    | inr (doc, h) ↦
        inr (doc, rw (h, store) refl, law.read-written g doc (replacement-written json io g h))
  ]

  -- A call leaves the document and returns an error, or makes its change.
  pub call-cases :
      (c : Call) (io : Io) (disk : Option Doc) (f : File)
      → held json disk ≡ some f
      → (((e : String) × (call json c io disk ≡ (disk, err e)))
          ⊎ ((g : File) × (r : Reply) × (doc : Doc) × (change c f ≡ ok (g, r))
              × (held json (some doc) ≡ some g)
              × (call json c io disk ≡ (some doc, ok r))))
  unfolding call
  call-cases c io disk f h = elim (Result-cases (load json io disk >>= change c)) [
    | inl (e, bad) ↦ inl (e, rw (bad, call) refl)
    | inr ((g, r), good) ↦
        let (f', loaded, changed) = >>=-ok (load json io disk) (change c) good in
        let same = load-held json io disk f h loaded in
        elim (store-held io g disk) [
          | inl (e, s) ↦ inl (e, rw (good, s, call) refl)
          | inr (doc, s, t) ↦ inr (
            g,
            r,
            doc,
            subst (λ f''. change c f'' ≡ ok (g, r)) (sym same) changed,
            t,
            rw (good, s, call) refl,
          )
        ]
  ]

  -- What every change of the run preserves, the run preserves.
  pub run-preserves :
      (P : File → Type 0) (cs : List (Call × Io)) (disk : Option Doc) (f : File)
      → All (λ s. (a b : File) (r : Reply) → change s.0 a ≡ ok (b, r) → P a → P b) cs
      → held json disk ≡ some f
      → P f
      → (g : File) × (held json (run json cs disk).0 ≡ some g) × P g
  unfolding run
  run-preserves P [] disk f steps h p = (f, h, p)
  run-preserves P ((c, io) ∷ cs) disk f (step, steps) h p = elim (call-cases c io disk f h) [
    | inl (e, same) ↦ rw same (run-preserves P cs disk f steps h p)
    | inr (g, r, doc, changed, h', now) ↦
        rw now (run-preserves P cs (some doc) g steps h' (step f g r changed p))
  ]
