-- ===== src/Purge/Sweep.antt =====
-- What the sweep of ComfyUI's directories leaves.
use zun_rust_server.Prelude.{◌+◌, ◌≡◌, refl, false, not, ◌&&◌, List, [], ◌∷◌, length, arith}
use zun_rust_server.Sql.{select_where}
use zun_rust_server.Purge.{PurgeOpts, Entry, is_leftover, sweep_dir}

-- The sweep of a directory keeps every entry that is not a leftover, in order; what it keeps and
-- what it counts as removed make up the directory.
pub sweep_dir_lem :
    (opts : PurgeOpts) (entries : List Entry)
    → opts.dry_run ≡ false
    → (select_where (λ e. not (is_leftover opts e)) (sweep_dir opts entries).0
        ≡ select_where (λ e. not (is_leftover opts e)) entries)
      × (length (sweep_dir opts entries).0 + (sweep_dir opts entries).1 ≡ length entries)
      × (select_where (λ e. is_leftover opts e && not e.remove_error) (sweep_dir opts entries).0
          ≡ [])
unfolding sweep_dir select_where
sweep_dir_lem opts [] wet = (refl, refl, refl)
sweep_dir_lem opts (e ∷ es) wet = ground (arith, sweep_dir_lem opts es wet)
