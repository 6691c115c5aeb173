-- ===== src/Vm/CaptureTests.antt =====
-- A captured parameter.
use nodus.Prelude.{ℕ, refl, none, some, [], ◌∷◌}
use nodus.Prelude.Dict.{lookup, insert}
use nodus.Vm.State.{plain, cell}
use nodus.Vm.Capture.{Captures, capture_local}
use nodus.Vm.Sharing.{Shares, capture_local-Shares}

-- A frame with the parameter `x` in slot 1; the cell 4 is the next one.
abbrev before : Captures ℕ ℕ
before = record {
  frame = record {
    return_ip = some 3;
    closure = none;
    locals = ("x", plain 7) ∷ [];
    locals_array = some (plain 0 ∷ plain 7 ∷ []);
    locals_name_to_slot = some (("x", 1) ∷ []);
    cross_module_ctx = none;
  };
  cells = λ c. 0;
  next_cell = 4;
  upvalues = [];
}

abbrev after : Captures ℕ ℕ
after = record {
  frame = record before.frame {
    locals = ("x", cell 4) ∷ [];
    locals_array = some (plain 0 ∷ cell 4 ∷ []);
  };
  cells = nodus.Tasks.update before.cells 4 7;
  next_cell = 5;
  upvalues = [];
}

capture_local-Shares_example : Shares 0 before "x" after 4
unfolding capture_local lookup insert
capture_local-Shares_example = capture_local-Shares 0 before "x" after 4 refl
