-- ===== src/Start/Tests.antt =====
-- The start of the kernel on a small memory.
use operator_system.Common.{◌≡◌, refl, false, none, some, [], ◌∷◌, replicate, arith}
use operator_system.Console.{at_boot}
use operator_system.Fork.{no_descriptor}
use operator_system.Fork.First.{first_process}
use operator_system.Mem.{static_map}
use operator_system.Protect.{no_gate}
use operator_system.Start.{Boot, Machine, cinit}
use operator_system.Start.Apart.{Running, cinit-Running}

-- 4 MB and two pages
abbrev loaded : Boot
loaded = record {
  loader_gdt = replicate 3 no_descriptor;
  ext_mem_size = 0x402000;
  root_dev_type = 0x301;
  cmos = λ _. 0;
  routine = λ _. 0x2000;
  gdt = 0x3000;
  idt = 0x4000;
  init_tasks = 0x8000;
}

abbrev machine : Machine Unit
machine = record {
  gdt_ptr = (0, 0);
  idt_ptr = (0, 0);
  root_dev = 0;
  idt = replicate 256 no_gate;
  ports = [];
  time = record { ticks = 0; startup_time = 0; outs = [] };
  cache = record {
    heads = λ _. record {
      b_data = 0;
      b_block_nr = 0;
      b_dev = 0;
      b_uptodate = false;
      b_dirt = false;
      b_count = 0;
      b_lock = false;
      b_wait = none;
      b_prev = 0;
      b_next = 0;
      b_prev_free = 0;
      b_next_free = 0;
    };
    hash_table = λ _. 0;
    free_list = 0;
    nr_buffers = 0;
    buffer_wait = none;
    others = tt;
  };
  system = record {
    tasks = some 0x8000 ∷ replicate 63 none;
    current = 0x8000;
    pcbs = λ _. first_process 0x8000;
    gdt = replicate 128 no_descriptor;
    memory = record { mem_map = static_map; words = λ _. 0 };
    last_pid = 0;
    ticks = 0;
    f_count = λ _. 0;
    i_count = λ _. 0;
  };
  drive = record {
    device = record {
      requests = λ _. record {
        dev = 0;
        cmd = 0;
        errors = 0;
        sector = 0;
        nr_sectors = 0;
        buffer = 0;
        bh = none;
        next = none;
      };
      current_request = none;
      buffers = λ _. record { b_data = 0; b_uptodate = false; b_dirt = false; b_lock = false };
      starts = 0;
    };
    info = record { head = 0; sector = 0; cylinder = 0; wpcom = 0; lzone = 0; ctrl = 0 };
    hd = λ _. record { start_sector = 0; cnt_sectors = 0 };
    device_intr = none;
    reset = false;
    recalibrate = false;
    answers = λ _. 0;
    reads = 0;
    effects = [];
  };
  hooks = record { request_fn = false; irq_handler = none; enabled = false };
  console = at_boot;
  irq_table = λ _. none;
  irq_enabled = λ _. false;
}

cinit-Running_example :
    (m' : Machine Unit) × (cinit 3 loaded machine ≡ some m') × Running loaded machine m'
cinit-Running_example =
    cinit-Running 3 loaded machine (omega arith) (omega arith) (omega arith) refl (omega arith)
      (omega arith)
