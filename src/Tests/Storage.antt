-- ===== src/Tests/Storage.antt =====
-- The files and the configuration at concrete contents.
use dun_tunel.Prelude.{
  ℕ, arith, ◌≡◌, refl, ◌⊎◌, inl, inr, List, [], ◌∷◌, ◌++◌, Option, none, some, Text, text, text_eq,
  take, lookup, insert, remove, decimal,
}
use dun_tunel.Shared.Errors.{EdgeResult, ok}
use dun_tunel.Storage.Files.{Dir, calls, concat, tmp_name, atomic_write_calls}
use dun_tunel.Storage.Stores.{
  is_safe, session_path, save_sequence, load_sequence, load_all_sequences, load_all_subdomains,
  read_subdomain,
}
use dun_tunel.Storage.Stores.Sequences.{save_sequence-cut}
use dun_tunel.Storage.Stores.Leftovers.{cut_save, saves, removes, changed, save_subdomain-leftover}
use dun_tunel.Storage.Stores.Reload.{save_sequence-load_all_sequences}
use dun_tunel.Rathole.Services.{RatholeService, udp}
use dun_tunel.Rathole.Config.{RatholeConfig}

abbrev dir : Dir
dir = (text "s1", text "41") ∷ (text "s2", text "7") ∷ []

-- The crash comes after the third of the five calls: the number is written in two pieces, and the old
-- file is gone with the fourth.
save_sequence-cut_example :
    let after = load_sequence (text "s1") (
      calls
        (take 4 (atomic_write_calls (session_path (text "s1")) (text "4" ∷ text "2" ∷ []) dir))
        dir) in
    (after ≡ load_sequence (text "s1") dir) ⊎ ((after ≡ none) ⊎ (after ≡ some 42))
unfolding concat decimal dun_tunel.Prelude.decimal_by
save_sequence-cut_example =
    save_sequence-cut (text "s1") 42 (text "4" ∷ text "2" ∷ []) 4 dir (omega arith) refl

save_sequence-load_all_sequences_example :
    lookup (session_path (text "s2")) (load_all_sequences (save_sequence (text "s1") 42 dir))
    ≡ lookup
        (session_path (text "s2"))
        (insert (session_path (text "s1")) 42 (load_all_sequences dir))
unfolding session_path is_safe text_eq
save_sequence-load_all_sequences_example =
    save_sequence-load_all_sequences (text "s1") 42 (text "s2") b's' (text "2") dir refl
      ((refl, tt), (tt, tt)) (omega arith)

abbrev subdomains : Dir
subdomains = (text "s2", text "x.sin.example") ∷ []

save_subdomain-leftover_example :
    lookup (tmp_name (session_path (text "s1"))) (
      load_all_subdomains (
        changed
          (saves (text "s2") (text "z.sin.example") ∷ removes (text "s1") ∷ [])
          (cut_save (text "s1") (text "y.sin.example") subdomains)))
    ≡ read_subdomain (some (text "y.sin.example"))
unfolding session_path is_safe tmp_name text_eq
save_subdomain-leftover_example =
    save_subdomain-leftover (text "s1") (text "y.sin.example")
      (saves (text "s2") (text "z.sin.example") ∷ removes (text "s1") ∷ []) subdomains (tt, tt)
      (refl, (tt, tt))

abbrev service : Text → RatholeService
service name = record {
  name = name;
  token_hash = text "hash";
  bind_addr = text "0.0.0.0:11000";
  transport = some udp;
}

abbrev encode : RatholeConfig → EdgeResult Text
encode cfg = ok cfg.bind_addr
