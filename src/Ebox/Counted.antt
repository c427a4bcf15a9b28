-- ===== src/Ebox/Counted.antt =====
-- `etc_m` counts the parts of a config, until one is removed.
use pivy.Prelude.{
  ℕ, zero, suc, ◌+◌, ◌%◌, ◌<◌, ◌≡◌, refl, List, [], ◌∷◌, ◌++◌, some, true, length, length-append,
  arith,
}
use pivy.Outcome.{ok}
use pivy.Ebox.{
  Links, TplPart, TplConfig, remove_at, ebox_tpl_config_add_part, ebox_tpl_config_remove_part,
}

-- There is an element at a place before the end, and one fewer without it.
remove_at-is_some :
    {A : Type 0} (i : ℕ) (xs : List A)
    → i < length xs
    → (ys : List A) × (remove_at i xs ≡ some ys) × (suc (length ys) ≡ length xs)
unfolding remove_at
remove_at-is_some i [] h = absurd (omega arith)
remove_at-is_some zero (x ∷ xs) h = (xs, refl, refl)
remove_at-is_some (suc i) (x ∷ xs) h =
    let (ys, e, n) = remove_at-is_some i xs (omega arith) in (x ∷ ys, rw e refl, omega arith)

module _ {EC : Type 0} where
  -- A part that is in no list is added and counted, up to 255 of them.
  pub add_part-counted :
      (links : Links) (part : TplPart EC) (config : TplConfig EC)
      → links.next_null ≡ true
      → links.prev_null ≡ true
      → config.etc_m ≡ length config.etc_parts
      → length config.etc_parts < 255
      → (config' : TplConfig EC) × (ebox_tpl_config_add_part links part config ≡ ok tt config')
        × (config'.etc_m ≡ length config'.etc_parts)
  unfolding ebox_tpl_config_add_part
  add_part-counted links part config n p e small = (
    record config { etc_m = (config.etc_m + 1) % 256; etc_parts = config.etc_parts ++ (part ∷ []) },
    rw (n, p) refl,
    omega (arith, length-append config.etc_parts (part ∷ [])),
  )

  -- A part that is removed is still counted: from a config whose `etc_m` is the number of its parts
  -- `ebox_tpl_config_remove_part` makes one whose `etc_m` is one more than that.
  pub remove_part-counted :
      (i : ℕ) (config : TplConfig EC)
      → config.etc_m ≡ length config.etc_parts
      → i < length config.etc_parts
      → (config' : TplConfig EC) × (ebox_tpl_config_remove_part i config ≡ ok tt config')
        × (config'.etc_m ≡ suc (length config'.etc_parts))
  unfolding ebox_tpl_config_remove_part
  remove_part-counted i config e inside =
      let (parts, removed, fewer) = remove_at-is_some i config.etc_parts inside in
      (
        record config { etc_parts = parts },
        rw (removed, ebox_tpl_config_remove_part) refl,
        omega arith,
      )
