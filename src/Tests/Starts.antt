-- ===== src/Tests/Starts.antt =====
-- source/mq_store_file.c, source/mq_store_manage.c, source/mq_config.c: the tests of what the start reads.
use ucmq.Prelude.{
  ℕ, ◌-◌, ◌<◌, ◌≤◌, ◌≡◌, refl, true, Bool, ◌⊎◌, some, Option, List, [], ◌∷◌, arith, length, All,
  codes,
}
use ucmq.Prelude.Run.{ret, fault}
use ucmq.Config.{UcmqConf, max_db_file_size}
use ucmq.Config.Read.{
  default_conf, IsTooLarge, IsNegative, IsKept, read_conf_file, read_conf_file_cases,
}
use ucmq.Types.{MqQueue, QueueFile}
use ucmq.Os.{Dirs, Dirent, dt_reg, dt_dir, usable}
use ucmq.StoreFile.Find.{starts_with, find_handle_file}
use ucmq.StoreFile.Find.Least.{db_names}
use ucmq.StoreFile.Find.Scan.{Picked, Numbered, find_handle_file-Picked}
use ucmq.StoreManage.Count.{get_msg_count}
use ucmq.StoreManage.Count.Sum.{Headed, sum_of, get_msg_count-sum}
use ucmq.QueueManage.Start.{zero_file}
use ucmq.Tests.World.{world, conf, queue, blank}

-- A reader that knows one text.
abbrev two_atoll : List ℕ → ℕ
two_atoll text = 2

-- "db_1", "rtag_1", "db_2" and a directory.
abbrev listing : List Dirent
listing =
    record { d_type = dt_reg; d_name = codes "db_2" }
    ∷ record { d_type = dt_reg; d_name = codes "rtag_1" }
    ∷ record { d_type = dt_dir; d_name = codes ".." }
    ∷ record { d_type = dt_reg; d_name = codes "db_1" }
    ∷ []

abbrev dirs : Dirs world
dirs = record {
  read_dir = λ s path. some listing;
  access_errno = λ s path. usable;
  is_dir = λ s path. true;
  read_at = λ s fd p n. some (codes "1000");
}

find_handle_file-Picked_example :
    (s' : world.Sys) × (file : QueueFile) × (ok : Bool) × (find_handle_file world dirs conf
        two_atoll zero_file
        (codes "a")
        blank
      ≡ ret (s', file, ok))
    × (0 < length (db_names listing) → Picked (db_names listing) file)
    × (ok ≡ true → (0 < length (db_names listing)) × Numbered two_atoll file)
find_handle_file-Picked_example =
    find_handle_file-Picked world dirs conf two_atoll zero_file (codes "a") blank listing refl
      (omega arith, (omega arith, (omega arith, (omega arith, tt)))) (omega arith) (omega arith)
      (omega arith)

abbrev thousand : List ℕ → ℕ
thousand text = 1000

headed : (d : List ℕ) → Headed world dirs conf thousand queue thousand d
headed d = record {
  positive = omega arith;
  below = omega arith;
  fd = λ s. 3;
  opens = λ s. refl;
  line = λ s. codes "1000";
  reads = λ s. refl;
  parses = λ s. refl;
}

All-headed : All (Headed world dirs conf thousand queue thousand) (db_names listing)
unfolding starts_with
All-headed = (headed (codes "db_2"), (headed (codes "db_1"), tt))

two_thousand : sum_of thousand (db_names listing) < 18446744073709551616
unfolding starts_with
two_thousand = omega arith

get_msg_count-sum_example :
    (s' : world.Sys) × (q' : MqQueue) × (get_msg_count world dirs conf thousand queue blank
      ≡ ret (s', q', sum_of thousand (db_names listing) - 0))
    × (q'.put_num ≡ sum_of thousand (db_names listing))
    × (q'.get_num ≡ 0)
    × (q'.unread_count ≡ sum_of thousand (db_names listing) - 0)
get_msg_count-sum_example =
    get_msg_count-sum world dirs conf thousand queue thousand (omega arith) listing blank refl
      All-headed two_thousand refl

-- No setting is there.
-- Every setting is "12".
abbrev twelve_ini : List ℕ → List ℕ → Option (List ℕ)
twelve_ini section key = some (codes "12")

abbrev twelve : List ℕ → ℕ
twelve text = 12

read_conf_file_cases_example :
    (IsTooLarge twelve twelve twelve_ini (some (codes "12"))
      × (read_conf_file twelve twelve twelve_ini default_conf ≡ fault))
    ⊎ ((c : UcmqConf) × (read_conf_file twelve twelve twelve_ini default_conf ≡ ret c)
        × (((max_db_file_size c ≤ 67108864)
              × IsKept twelve twelve twelve_ini 64 (some (codes "12")) c.db_file_max_size)
            ⊎ IsNegative twelve twelve twelve_ini (some (codes "12")) c.db_file_max_size))
read_conf_file_cases_example = read_conf_file_cases twelve twelve twelve_ini
