-- ===== src/Load/Packages/Reads.antt =====
-- What the questions about the package of a file read (src/worker/modules.rs).
use deno_director.Prelude.{
  ◌≡◌, ◌⊎◌, refl, inl, inr, Option, List, [], ◌∷◌, list_eq, All, All-append, Option-cases, if_elim,
}
use deno_director.Prelude.Dict.{get}
use deno_director.Prelude.Text.{Text}
use deno_director.Paths.{FilePath, Files}
use deno_director.LoaderConfig.{Urls}
use deno_director.Resolve.Node.{is_file}
use deno_director.Load.World.{World, Effect, reads_package, LoaderState}
use deno_director.Load.Packages.{
  ancestors, Asked, Package, package_json, nearest_in, nearest_package_json, kept, module_in,
  js_file_is_package_module, js_file_is_package_module_entry, entry_after,
}

module _ {N : Type 0} (U : Urls) (w : World N U) where
  -- The path is that of the package.json of one of the directories.
  abbrev pub IsPackageOf : FilePath → List FilePath → Type 0
  IsPackageOf p [] = ⊥
  IsPackageOf p (dir ∷ dirs) = (p ≡ package_json U w dir) ⊎ IsPackageOf p dirs

  module _ (P : Effect (Urls.Url U) → Type 0) (path : FilePath) where
    nearest_in-All :
        (dirs : List FilePath)
        → ((p : FilePath) → IsPackageOf p dirs → P (reads_package path p))
        → All P (nearest_in U w path dirs).0
    unfolding nearest_in
    nearest_in-All [] h = tt
    nearest_in-All (dir ∷ dirs) h =
        if_elim (λ (r : List (Effect (Urls.Url U)) × Option (Package U w)). All P r.0)
          (is_file w.disk (package_json U w dir)) (λ _. (h (package_json U w dir) (inl refl), tt))
          (λ _. nearest_in-All dirs (λ p q. h p (inr q)))

    kept-All :
        (st : LoaderState) (key : Text) (r : List (Effect (Urls.Url U)) × Option (Package U w))
        → All P r.0
        → All P (kept U w st key r).effects
    kept-All st key (es, pkg) h = h

    module_in-All :
        (st : LoaderState) (dirs : List FilePath)
        → All P (nearest_package_json U w path).0
        → All P (module_in U w st path dirs).effects
    unfolding module_in
    module_in-All st [] h = tt
    module_in-All st (dir ∷ dirs) h =
        elim (Option-cases (get st.package_cache (Files.to_text w.disk.files dir))) [
          | inr (cached, e) ↦ rw (module_in, e) tt
          | inl e ↦
              rw (module_in, e)
                (if_elim (λ (a : Asked U). All P a.effects) (is_file w.disk (package_json U w dir))
                  (λ _.
                    kept-All st (Files.to_text w.disk.files dir) (nearest_package_json U w path) h)
                  (λ _. module_in-All st dirs h))
        ]

    after-All :
        (a : Asked U)
        → All P a.effects
        → All P (nearest_package_json U w path).0
        → All P (entry_after U w path a).effects
    unfolding js_file_is_package_module_entry
    after-All a h k =
        if_elim (λ (b : Asked U). All P b.effects) a.answer (λ _. h)
          (λ _. All-append P a.effects _ h k)

    -- Nothing is read but package.json files of the directories above the path.
    pub package-All :
        (st : LoaderState)
        → ((p : FilePath) → IsPackageOf p (ancestors path) → P (reads_package path p))
        → All P (entry_after U w path (js_file_is_package_module U w st path)).effects
    unfolding nearest_package_json js_file_is_package_module
    package-All st h =
        let k : All P (nearest_package_json U w path).0 = nearest_in-All (ancestors path) h in
        after-All _ (module_in-All st (ancestors path) k) k
