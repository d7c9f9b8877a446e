-- ===== src/CloudWork/Tests.antt =====
-- A command of a manager that was made for root.
use solutions.Base.{◌≡◌, arith, codes}
use solutions.CloudWork.{schedul, new_manager, worker_mapper, mapping_worker}
use solutions.CloudWork.Schedule.{schedul-cut}

schedul-cut_example :
    schedul (codes "/tt/") (new_manager worker_mapper (codes "root")) (codes "Del /a")
    ≡ (mapping_worker worker_mapper (codes "Del"), codes "Add /tt/unknow/a")
schedul-cut_example =
    schedul-cut (codes "/tt/") worker_mapper (codes "root") (codes "Del") (codes "/a")
      (λ e. absurd (omega arith), (λ e. absurd (omega arith), (λ e. absurd (omega arith), tt)))
      (omega arith)
