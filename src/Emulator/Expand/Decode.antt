-- ===== src/Emulator/Expand/Decode.antt =====
-- A compressed instruction of each class of kernel/src/emulator.rs reaches the arm for its fields.
use ron.Base.{ℕ, ◌+◌, ◌*◌, ◌/◌, ◌%◌, ◌^◌, ◌≡◌, some, arith, refl}
use ron.Emulator.PackedStruct.{PackedStruct}
use ron.Emulator.Opcode.{
  compressed_type, crtype, citype, csstype, ciwtype, cltype, cstype, catype, cbtype, cjtype,
}
use ron.Emulator.Compressed.Fields.{
  RiscvCrTypeInstruction, RiscvCiTypeInstruction, RiscvCssTypeInstruction, RiscvCiwTypeInstruction,
  RiscvClTypeInstruction, RiscvCsTypeInstruction, RiscvCaTypeInstruction, RiscvCbTypeInstruction,
  RiscvCjTypeInstruction,
}
use ron.Emulator.Expand.{
  expand, expand_as, expand_cr, expand_ci, expand_css, expand_ciw, expand_cl, expand_cs, expand_ca,
  expand_cb, expand_cj,
}
use ron.Emulator.Expand.Classes.{quadrant, expand-class}
use ron.Emulator.Expand.Fields.{
  FitsCrType, cr_body, unpack_cr_lem, FitsCiType, ci_body, unpack_ci_lem, FitsCssType, css_body,
  unpack_css_lem, FitsCiwType, ciw_body, unpack_ciw_lem, FitsClType, cl_body, unpack_cl_lem,
  FitsCsType, cs_body, unpack_cs_lem, FitsCaType, ca_body, unpack_ca_lem, FitsCbType, cb_body,
  unpack_cb_lem, FitsCjType, cj_body, unpack_cj_lem,
}

module _ ⦃ps : PackedStruct⦄ (w : ℕ) where
  pub expand-cr :
      (i : RiscvCrTypeInstruction)
      → w % 2 ^ 16 ≡ quadrant i.opcode + 4 * cr_body i
      → FitsCrType i
      → compressed_type i.opcode (i.funct4 / 2) (cr_body i / 2 ^ 8 % 4) ≡ some crtype
      → expand w ≡ expand_cr i.opcode i w
  unfolding expand_as
  expand-cr i e fits h = rw (
    expand-class w i.opcode (cr_body i) (i.funct4 / 2) (cr_body i / 2 ^ 8 % 4) e (ground arith) refl
        h,
    unpack_cr_lem w i.opcode i e fits refl,
  )

  pub expand-ci :
      (i : RiscvCiTypeInstruction)
      → w % 2 ^ 16 ≡ quadrant i.opcode + 4 * ci_body i
      → FitsCiType i
      → compressed_type i.opcode i.funct3 (ci_body i / 2 ^ 8 % 4) ≡ some citype
      → expand w ≡ expand_ci i.opcode i w
  unfolding expand_as
  expand-ci i e fits h = rw (
    expand-class w i.opcode (ci_body i) i.funct3 (ci_body i / 2 ^ 8 % 4) e (ground arith) refl h,
    unpack_ci_lem w i.opcode i e fits refl,
  )

  pub expand-css :
      (i : RiscvCssTypeInstruction)
      → w % 2 ^ 16 ≡ quadrant i.opcode + 4 * css_body i
      → FitsCssType i
      → compressed_type i.opcode i.funct3 (css_body i / 2 ^ 8 % 4) ≡ some csstype
      → expand w ≡ expand_css i.opcode i w
  unfolding expand_as
  expand-css i e fits h = rw (
    expand-class w i.opcode (css_body i) i.funct3 (css_body i / 2 ^ 8 % 4) e (ground arith) refl h,
    unpack_css_lem w i.opcode i e fits refl,
  )

  pub expand-ciw :
      (i : RiscvCiwTypeInstruction)
      → w % 2 ^ 16 ≡ quadrant i.opcode + 4 * ciw_body i
      → FitsCiwType i
      → compressed_type i.opcode i.funct3 (ciw_body i / 2 ^ 8 % 4) ≡ some ciwtype
      → expand w ≡ expand_ciw i.opcode i w
  unfolding expand_as
  expand-ciw i e fits h = rw (
    expand-class w i.opcode (ciw_body i) i.funct3 (ciw_body i / 2 ^ 8 % 4) e (ground arith) refl h,
    unpack_ciw_lem w i.opcode i e fits refl,
  )

  pub expand-cl :
      (i : RiscvClTypeInstruction)
      → w % 2 ^ 16 ≡ quadrant i.opcode + 4 * cl_body i
      → FitsClType i
      → compressed_type i.opcode i.funct3 (cl_body i / 2 ^ 8 % 4) ≡ some cltype
      → expand w ≡ expand_cl i.opcode i w
  unfolding expand_as
  expand-cl i e fits h = rw (
    expand-class w i.opcode (cl_body i) i.funct3 (cl_body i / 2 ^ 8 % 4) e (ground arith) refl h,
    unpack_cl_lem w i.opcode i e fits refl,
  )

  pub expand-cs :
      (i : RiscvCsTypeInstruction)
      → w % 2 ^ 16 ≡ quadrant i.opcode + 4 * cs_body i
      → FitsCsType i
      → compressed_type i.opcode i.funct3 (cs_body i / 2 ^ 8 % 4) ≡ some cstype
      → expand w ≡ expand_cs i.opcode i w
  unfolding expand_as
  expand-cs i e fits h = rw (
    expand-class w i.opcode (cs_body i) i.funct3 (cs_body i / 2 ^ 8 % 4) e (ground arith) refl h,
    unpack_cs_lem w i.opcode i e fits refl,
  )

  pub expand-ca :
      (i : RiscvCaTypeInstruction)
      → w % 2 ^ 16 ≡ quadrant i.opcode + 4 * ca_body i
      → FitsCaType i
      → compressed_type i.opcode (i.funct6 / 8) (i.funct6 % 4) ≡ some catype
      → expand w ≡ expand_ca i.opcode i w
  unfolding expand_as
  expand-ca i e fits h = rw (
    expand-class w i.opcode (ca_body i) (i.funct6 / 8) (i.funct6 % 4) e (ground arith)
        (ground arith) h,
    unpack_ca_lem w i.opcode i e fits refl,
  )

  pub expand-cb :
      (i : RiscvCbTypeInstruction)
      → w % 2 ^ 16 ≡ quadrant i.opcode + 4 * cb_body i
      → FitsCbType i
      → compressed_type i.opcode i.funct3 (i.imm_part2 % 4) ≡ some cbtype
      → expand w ≡ expand_cb i.opcode i w
  unfolding expand_as
  expand-cb i e fits h = rw (
    expand-class w i.opcode (cb_body i) i.funct3 (i.imm_part2 % 4) e (ground arith) (ground arith)
        h,
    unpack_cb_lem w i.opcode i e fits refl,
  )

  pub expand-cj :
      (i : RiscvCjTypeInstruction)
      → w % 2 ^ 16 ≡ quadrant i.opcode + 4 * cj_body i
      → FitsCjType i
      → compressed_type i.opcode i.funct3 (cj_body i / 2 ^ 8 % 4) ≡ some cjtype
      → expand w ≡ expand_cj i.opcode i w
  unfolding expand_as
  expand-cj i e fits h = rw (
    expand-class w i.opcode (cj_body i) i.funct3 (cj_body i / 2 ^ 8 % 4) e (ground arith) refl h,
    unpack_cj_lem w i.opcode i e fits refl,
  )
