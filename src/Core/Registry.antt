-- ===== src/Core/Registry.antt =====
-- `default_registry` of src/formshift_server/app.py: the registry of the core modules.
use formshift_server.Prelude.{[], Result, ◌>>=◌}
use formshift_server.Modules.{Registry, RegisterError, register}
use formshift_server.Core.{Platform}
use formshift_server.Core.Raster.{
  crop_module, rotate_module, levels_module, threshold_module, invert_module, downsample_module,
}
use formshift_server.Core.Color.{posterize_module, colormask_module}
use formshift_server.Core.Svg.{Xml, colorize_module, merge_module}
use formshift_server.Core.Potrace.{Host, potrace_module}

module _ (py : Platform) (xml : Xml) (host : Host py) where
  unfoldable pub default_registry : Result RegisterError Registry
  default_registry = do
    r1 ← register [] (potrace_module py host)
    r2 ← register r1 (crop_module py)
    r3 ← register r2 (rotate_module py)
    r4 ← register r3 (levels_module py)
    r5 ← register r4 (threshold_module py)
    r6 ← register r5 (invert_module py)
    r7 ← register r6 (downsample_module py)
    r8 ← register r7 (posterize_module py)
    r9 ← register r8 (colormask_module py)
    r10 ← register r9 (colorize_module xml)
    register r10 (merge_module xml)
