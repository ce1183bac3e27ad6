-- ===== src/Arch/Device.antt =====
-- The body of a `ktdf_arch.device`, as the views walk it. The operations are those of the KTDFArch
-- dialect, which is outside the repository: this is the shape of the input, and a value (an SSA
-- name) and a kind (a uniqued attribute) are numbers, of which the code uses nothing but equality.
use acgatea.Common.{ℕ, List, Option, Bool}

-- The `size` property of a memory. An integer is given as the `size_t` that it converts to.
pub data SizeAttr : Type 0 where
  no_size : SizeAttr
  int_size : ℕ → SizeAttr
  other_size : SizeAttr

mutual
  pub data DeviceOp : Type 0 where
    -- result, kind, size
    memory : ℕ → ℕ → SizeAttr → DeviceOp
    -- result, kind, `load_store`
    exec_unit : ℕ → Option ℕ → Bool → DeviceOp
    -- kind, shared memory, block arguments, body, the operands of the final `yield`, results
    group : Option ℕ → List ℕ → List ℕ → Body → Option (List ℕ) → List ℕ → DeviceOp
    -- source, target
    datapath : ℕ → ℕ → DeviceOp
    other : DeviceOp

  pub data Body : Type 0 where
    end : Body
    op : DeviceOp → Body → Body
