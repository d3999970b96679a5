-- ===== src/Client/Memory.antt =====
-- `lseek` and `write` on the disk in memory.
use wind_cloud_v.Base.{ap, ◌∙◌, true, Option, some, Bytes}
use wind_cloud_v.Server.World.{overwrite}
use wind_cloud_v.Server.Memory.{put_file, created, memory, put_file-same, put_file-other}
use wind_cloud_v.Client.World.{Calls, Written}

abbrev pub file_calls : Calls memory
file_calls = record {
  lseek = λ d p pos. true;
  write = λ d p pos new. put_file d p (some (overwrite pos new (created (d p))));
}

pub file_calls-Written : Written memory file_calls
file_calls-Written = record {
  write-file = λ d p pos new bs there fits.
      put_file-same d p _ ∙ ap (λ (x : Option Bytes). some (overwrite pos new (created x))) there;
  write-other = λ d p q pos new n. put_file-other d p q _ n;
}
