-- ===== src/Tests/Ends.antt =====
-- source/main.c: a run of the program on a small system.
use ucmq.Prelude.{ℕ, ◌≡◌, ◌⊎◌, inl, inr, refl, true, Option, some, none, List, [], ◌∷◌, codes}
use ucmq.Prelude.Run.{ret}
use ucmq.Os.{Os, Dirs, usable, made, failed}
use ucmq.Http.{Server}
use ucmq.QueueManage.Table.Closed.{Resource, mapping, descriptor, IsFreeing}
use ucmq.Main.{Events, zero_info, mq_init_store, main_entrance}
use ucmq.Main.Life.{Ran, NotSetUp, main_entrance_ends}
use ucmq.Tests.World.{queue, server, small_atoi}

-- A system that keeps the list of what it was given back.
abbrev ledger : Os
ledger = record {
  Sys = List Resource;
  mapped = λ s k. 0;
  load = λ s k i. 0;
  store = λ s m p bs. s;
  open_file = λ s f c. (s, some 3);
  close = λ s fd. elim fd [ none ↦ s | some n ↦ descriptor n ∷ s ];
  ftruncate = λ s fd n. s;
  seek_last = λ s fd. (s, true);
  write_byte = λ s fd b. s;
  file_size = λ s f. none;
  mmap = λ s fd n. (s, some 1);
  munmap = λ s m. elim m [ none ↦ s | some n ↦ mapping n ∷ s ];
  msync = λ s m n. (s, true);
  fsync = λ s fd. (s, true);
  unlink = λ s f. s;
  write_n = λ s fd bs. (s, true);
  read_tail = λ s fd i. failed;
  free_bytes = λ s p. 0;
  access = λ s p. true;
  mkdir = λ s p. (s, made);
  delete_file = λ s p. s;
}

-- The list has it.
abbrev Given : List Resource → Resource → Type 0
Given [] r = ⊥
Given (g ∷ given) r = (g ≡ r) ⊎ Given given r

Given-munmap :
    (s : List Resource) (m : Option ℕ) (r : Resource) → Given s r → Given (ledger.munmap s m) r
Given-munmap s none r h = h
Given-munmap s (some n) r h = inr h

Given-close :
    (s : List Resource) (fd : Option ℕ) (r : Resource) → Given s r → Given (ledger.close s fd) r
Given-close s none r h = h
Given-close s (some n) r h = inr h

ledger-IsFreeing : IsFreeing ledger
ledger-IsFreeing = record {
  Free = Given;
  munmap_frees = λ s m. inl refl;
  close_frees = λ s fd. inl refl;
  free_munmap = Given-munmap;
  free_close = Given-close;
  free_msync = λ s m n r h. h;
  free_fsync = λ s fd r h. h;
  free_unlink = λ s name r h. h;
}

abbrev no_dirs : Dirs ledger
no_dirs = record {
  read_dir = λ s path. some [];
  access_errno = λ s path. usable;
  is_dir = λ s path. true;
  read_at = λ s fd p n. none;
}

abbrev empty_server : Server ledger
empty_server = record { sys = []; qlist = []; conf = server.conf; info = server.info }

-- A loop that makes one queue and ends.
abbrev one_event : Events ledger
one_event = record {
  Loop = ℕ;
  event_init = λ e. (e, true);
  evhttp_new = λ e. (e, true);
  bind_socket = λ e addr port. (e, true);
  set_callbacks = λ e t. e;
  make_pipe = λ e. (e, true);
  add_events = λ e. e;
  base_free = λ e. e;
  http_free = λ e. e;
  close_pipe = λ e. e;
  dispatch = λ e sv. ret (e, record sv { qlist = (codes "a", queue) ∷ [] }, 0);
}

abbrev after : Server ledger
after = record empty_server { sys = descriptor 5 ∷ mapping 0 ∷ descriptor 4 ∷ []; info = zero_info }

one_run :
    main_entrance ledger no_dirs one_event small_atoi small_atoi 1 0 empty_server
    ≡ ret (0, after, 8)
unfolding main_entrance
one_run = refl

main_entrance_ends_example :
    ◌≡◌ {A = ℕ} 8 2
    ⊎ ((opened : Server ledger) × (mq_init_store ledger no_dirs one_event small_atoi small_atoi 1
            empty_server
          ≡ ret (opened, 3))
        × ((after.qlist ≡ [])
            × (NotSetUp ledger one_event ledger-IsFreeing opened after.sys 8
                ⊎ Ran ledger one_event ledger-IsFreeing opened after.sys 8)))
main_entrance_ends_example =
    main_entrance_ends ledger no_dirs one_event small_atoi small_atoi ledger-IsFreeing 1 0 0
      empty_server after 8 one_run
