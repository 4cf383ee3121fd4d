-- ===== src/Fileperm/Tests.antt =====
-- Runs of the checks of Windows paths.
use zscalerctl.Prelude.{◌≡◌, refl, codes, [], true, list_beq}
use zscalerctl.Fileperm.{is_unc_path, volume_root_from_final_path}
use zscalerctl.Fileperm.Unc.{volume_root_from_final_path-nil}

drive_run : volume_root_from_final_path (codes "\\\\?\\C:\\Users\\me") ≡ codes "C:\\"
unfolding volume_root_from_final_path list_beq
drive_run = refl

volume_run :
    volume_root_from_final_path (codes "\\\\?\\volume{a1}\\x") ≡ codes "\\\\?\\volume{a1}\\"
unfolding volume_root_from_final_path list_beq
volume_run = refl

unc_run : is_unc_path (codes "//?/unc/server/share") ≡ true
unfolding is_unc_path list_beq
unc_run = refl

volume_root_from_final_path-nil_example :
    volume_root_from_final_path (codes "//?/unc/server/share") ≡ []
volume_root_from_final_path-nil_example =
    volume_root_from_final_path-nil (codes "//?/unc/server/share") unc_run
